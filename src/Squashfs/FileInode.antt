-- ===== src/Squashfs/FileInode.antt =====
-- A regular file from its inode on: what a kernel reads by the inode's bytes and the output.
use hpcc.Prelude.{
  ℕ, zero, suc, ◌+◌, ◌-◌, ◌/◌, ◌^◌, ◌<◌, ◌≡◌, ◌≢◌, refl, sym, ap, subst, ◌∙◌, some, List, [], ◌∷◌,
  ◌++◌, Bytes, length, take, drop, All, arith,
}
use mathlib.Core.Path.{ap₂}
use hpcc.Prelude.Endian.{le_bytes, le_value, le_value-le_bytes}
use hpcc.Squashfs.Compressor.{failed, Codec}
use hpcc.Squashfs.Stream.{concat}
use hpcc.Squashfs.Files.{FileWriter, create_file, flush_tail}
use hpcc.Squashfs.FileBlocks.{read_file}
use hpcc.Squashfs.Streaming.{file_write_all}
use hpcc.Squashfs.WholeFiles.{file_write_all-IsWhole}
use hpcc.Squashfs.Inodes.{file, Entry, common_header, size_list, inode_body, invalid_fragment}

-- A little-endian u32 at an offset, and a sequence of them.
unfoldable u32_at : ℕ → Bytes → ℕ
u32_at n s = le_value (take 4 (drop n s))

unfoldable read_words : ℕ → Bytes → List ℕ
unfolding u32_at
read_words zero s = []
read_words (suc n) s = u32_at 0 s ∷ read_words n (drop 4 s)

-- A basic file's inode: the start of its blocks stands at 16, its size at 28, its words from 32 on.
unfoldable pub read_file_inode : Codec → ℕ → Bytes → Bytes → Bytes
unfolding u32_at read_words
read_file_inode c block_size inode image =
    let words = read_words ((u32_at 28 inode + block_size - 1) / block_size) (drop 32 inode) in
    read_file c block_size words (drop (u32_at 16 inode) image)

-- The entry of a file that was written, with what its writer has left in it.
abbrev pub entry_of : Entry → FileWriter → Entry
entry_of e g = record e {
  kind = file;
  file_blocks_start = g.blocks_start;
  file_block_sizes = g.block_sizes;
  file_size = g.file_size;
}

read_words-size_list :
    (sizes : List ℕ)
    → All (λ w. w < 2 ^ 32) sizes
    → read_words (length sizes) (size_list sizes) ≡ sizes
unfolding read_words size_list le_bytes
read_words-size_list [] h = refl
read_words-size_list (w ∷ sizes) h =
    ap₂ ◌∷◌ (le_value-le_bytes 4 w h.0) (read_words-size_list sizes h.1)

module _ (c : Codec) (block_size : ℕ) (e : Entry) (mtime : ℕ) where
  encoded : (g : FileWriter) → Bytes
  encoded g =
      common_header 2 (entry_of e g) mtime
      ++ (le_bytes 4 g.blocks_start
          ++ (le_bytes 4 invalid_fragment
              ++ (le_bytes 4 0 ++ (le_bytes 4 g.file_size ++ size_list g.block_sizes))))

  inode_body-encoded :
      (g : FileWriter)
      → g.blocks_start < 2 ^ 32
      → g.file_size < 2 ^ 32
      → length g.block_sizes ≡ (g.file_size + block_size - 1) / block_size
      → inode_body (entry_of e g) mtime block_size ≡ some (encoded g)
  unfolding inode_body encoded
  inode_body-encoded g start size count = ground arith

  read_encoded :
      (g : FileWriter) (image : Bytes)
      → g.blocks_start < 2 ^ 32
      → g.file_size < 2 ^ 32
      → length g.block_sizes ≡ (g.file_size + block_size - 1) / block_size
      → All (λ w. w < 2 ^ 32) g.block_sizes
      → read_file_inode c block_size (encoded g) image
        ≡ read_file c block_size g.block_sizes (drop g.blocks_start image)
  unfolding read_file_inode encoded common_header le_bytes
  read_encoded g image start size count narrow =
      ap₂ (λ ws at. read_file c block_size ws (drop at image))
        (ap (λ n. read_words n (size_list g.block_sizes))
            (ap (λ n. (n + block_size - 1) / block_size) (le_value-le_bytes 4 g.file_size size)
              ∙ sym count)
          ∙ read_words-size_list g.block_sizes narrow)
        (le_value-le_bytes 4 g.blocks_start start)

  -- A file that is written to an image in any chunks, with a block size from 1 to 2^24 - 1 and a
  -- compressor that never fails, is read back whole: the calls of file_write and flush_tail
  -- succeed, inode_body gives an inode, and a reader that takes the start of the blocks, the size
  -- and the words of the blocks from the bytes of this inode finds in the output the chunks one
  -- behind the other, whatever the output held before and whatever is written behind. The output
  -- before the file and the file are each shorter than 2^32 bytes.
  pub read_file_inode-inode_body :
      (start rest : Bytes) (chunks : List Bytes)
      → 0 < block_size
      → block_size < 2 ^ 24
      → ((s : Bytes) → c.compress s ≢ failed)
      → length start < 2 ^ 32
      → length (concat chunks) < 2 ^ 32
      → (f g : FileWriter) × (body : Bytes) × (file_write_all c block_size start
            (create_file start (length start))
            chunks
          ≡ some f)
        × (flush_tail c f ≡ some g)
        × (inode_body (entry_of e g) mtime block_size ≡ some body)
        × (read_file_inode c block_size body (g.out ++ rest) ≡ concat chunks)
  read_file_inode-inode_body start rest chunks pos small sound far long =
      let (f, g, written, flushed, w) =
        file_write_all-IsWhole c block_size start chunks rest pos small sound in
      let near : g.blocks_start < 2 ^ 32 = subst (λ n. n < 2 ^ 32) (sym w.started) far in
      let short : g.file_size < 2 ^ 32 = subst (λ n. n < 2 ^ 32) (sym w.sized) long in
      (
        f,
        g,
        encoded g,
        written,
        flushed,
        inode_body-encoded g near short w.counted,
        read_encoded g (g.out ++ rest) near short w.counted w.narrow ∙ w.readable,
      )
