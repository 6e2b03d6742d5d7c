-- ===== src/Lib.antt =====
-- gopar-turbo verifies and repairs files with PAR2 recovery sets. This library models the
-- arithmetic that every repair rests on, from the bits up to the reconstruction of lost shards, and
-- the packets that a repair reads.
--
-- The parts, each with the file that models it:
--   Gf2       gf2/poly64.go: Poly64, polynomials over GF(2) as 64-bit words. A word is a number
--             below 2^64; `times_loop`, `ilog2_loop` and `div_loop` are the loops of Times, ilog2
--             and Div.
--   Gf2p16    gf2p16/t.go: T, the elements of GF(2^16) as numbers below 2^16. `init_round` and
--             `init_loop` are the loop of init, over the two global tables as functions of the
--             index; `times`, `inverse`, `div` and `pow` read the tables that it leaves.
--   Gf2p16.Slice  gf2p16/slice.go: the portable routines that multiply slices through the tables
--             of products of a coefficient with the low and the high bytes. A slice is a list.
--   Matrix    gf2p16/matrix.go: matrices in row-major order, their elements a function of the
--             index. A mutating method returns the new matrix; `Outcome` tells a panic (`fault`)
--             from the returned error (`failure`). `find_pivot`, `eliminate`, `down_round` and
--             `up_round` are the loops of rowReduceForInverse.
--   Par2      par2/packet.go and the packets of par2/main_packet.go, par2/ifsc_packet.go,
--             par2/recovery_packet.go and par2/creator_packet.go, with par2/string.go, read from
--             and written to lists of bytes. `Wire` has the little-endian integers. The readers
--             that take bytes off a buffer return the rest of it; `Outcome` holds the errors by
--             name. MD5 is a parameter, with a digest of 16 bytes where a theorem needs its size.
--             The padding is `padPacketBytes` of par2/file.go. `Volume` is par2/volume.go, with the
--             file reader as a parameter and the loops over a file in rounds; `Crc32` is par2/crc32.go,
--             with the checksum of the language's library written out. `FileDescription` is
--             par2/file_description_packet.go; `clean_relative` is `path.Clean` of a relative path.
--             `Scan` is the scan of par2/decoder.go: `scan_buffer` is scanBuffer for a number of
--             rounds; a map is a function of its key, and a set a list. `Counts` has ShardCounts;
--             `Found`, `Marked` and `Aligned` are about a scan without the search for misaligned
--             slices. `Runes` decodes UTF-8 as a loop over a string of the language does. `DataFile` is
--             computeDataFileInfo of par2/data_file.go, with the size of the scan's window.
--   Rsec16    rsec16/matrix.go: `calculate_parallel_params` and `range_of` split the work on shards
--             among goroutines, and `Apply` has applyMatrixSlice and its callers, with the order in
--             which the goroutines run as a parameter (`IsSchedule` says that each of them runs);
--             rsec16/par2_plan.go: `fold_chunk_size` is FoldChunkSize, with gf16.Accelerated as a
--             parameter. `Fold` is foldInputsPureGo of rsec16/fold.go. `Coder` has the constructors
--             of rsec16/coder.go, rsec16/cauchy.go and rsec16/vandermonde.go; `Reconstruct` has
--             GenerateParity, ReconstructionMatrix and ReconstructData: `split_rows` and
--             `choose_parity` are the two loops of the latter, `fill_shards` its last. A lost shard
--             is `none`. All of this is the build in which gf16.Accelerated is false.
-- The matrices use the slices and the elements; the elements use the polynomials. `Bits` has the
-- laws of exclusive or, which is addition in all of them, and `Base` what all files share: tests
-- on numbers, lists, counted loops with their invariant rule. `Tests` runs the theorems at
-- concrete inputs.
--
-- Bounds and fuel. Times of Poly64 takes 64 rounds and ilog2 64, since each round halves a 64-bit
-- word; Div takes 65, since each round shortens the remainder; that these are enough is part of
-- the theorems about them. A loop over a volume has size/64 + 1 rounds, since a packet has 64 bytes or more; indexPackets
-- and scanBuffer have the number of their rounds as an argument, and as many rounds as the limit are
-- enough for the latter when it does not look for misaligned slices. Volumes are shorter than
-- 2^63 - 2^30 bytes, so that the sum of an offset and a length that walkPackets accepts does not wrap. The loops over rows, columns, table entries and packet parts are
-- counted. An `int` has 64 bits. Indices, dimensions and lengths are unbounded numbers: no product
-- of dimensions is assumed to wrap.
--
-- Not modelled: the assembly routines for amd64, the casts between byte and element slices, the
-- once-per-coefficient cache of the product tables (it stores a value that depends on the
-- coefficient alone), the native kernels under gf16/vendor, files, commands and progress reports.
pub mod Base
pub mod Bits
pub mod Gf2
pub mod Gf2p16
pub mod Matrix
pub mod Par2
pub mod Rsec16
pub mod Tests
