-- ===== src/Files/Chunks/Tests.antt =====
-- The writes of two bytes to the file of Inode/Disk/Tests, from memory that can be read and that cannot.
use octopos.Base.{◌≡◌, arith}
use octopos.Blocks.Tests.{small_disk, ten_used}
use octopos.Inode.Disk.Tests.{one_block, one_block-IsFile, two_bytes, two_bytes_small}
use octopos.Files.Chunks.{more, write_chunks}
use octopos.Files.Chunks.Ends.{ChunkEnds, write_chunks-stuck, write_chunks_lem}

write_chunks_lem_example :
    ChunkEnds small_disk 1 two_bytes 8 0 4 one_block ten_used
      (write_chunks small_disk 1 two_bytes 8 2 0 4 one_block ten_used)
write_chunks_lem_example =
    write_chunks_lem small_disk 1 two_bytes 8 (omega arith) two_bytes_small 2 0 4 one_block ten_used
      (omega arith) (omega arith) (omega arith) one_block-IsFile (omega arith)

write_chunks-stuck_example :
    write_chunks small_disk 1 two_bytes 0 1000 0 4 one_block ten_used ≡ more
write_chunks-stuck_example =
    write_chunks-stuck small_disk 1 two_bytes 0 (omega arith) two_bytes_small 1000 0 4 one_block
      ten_used (omega arith) (omega arith) one_block-IsFile (omega arith) (omega arith)
