-- ===== src/Fs/Relisfs/Encode.antt =====
-- The inode of fs/relisfs/relisfs.c as bytes, and bytes inside a block.
use relis.Prelude.{
  ℕ, zero, suc, ◌+◌, ◌*◌, ◌/◌, ◌%◌, ◌^◌, ◌≤◌, ◌<◌, ◌≡◌, refl, sym, ap, ◌∙◌, List, [], ◌∷◌, ◌++◌,
  arith, length, take, drop, length-append, length-take, length-drop,
}
use relis.Fs.Relisfs.{DiskInode, le32, read32, encode_inode, decode_inode, splice}

-- an inode that fits its struct
pub record Fits (i : DiskInode) : Type 0 where
  pub used : i.used < 2 ^ 32
  pub size : i.size < 2 ^ 32
  pub direct_block : i.direct_block < 2 ^ 32
  pub name : length i.name ≡ 64

pub take_all : (xs : List ℕ) → take (length xs) xs ≡ xs
take_all [] = refl
take_all (x ∷ xs) = ap (◌∷◌ x) (take_all xs)

take_front : (n : ℕ) (xs ys : List ℕ) → n ≡ length xs → take n (xs ++ ys) ≡ xs
take_front zero [] ys h = refl
take_front zero (x ∷ xs) ys h = absurd (omega arith)
take_front (suc n) [] ys h = absurd (omega arith)
take_front (suc n) (x ∷ xs) ys h = ap (◌∷◌ x) (take_front n xs ys (omega arith))

drop_front : (n : ℕ) (xs ys : List ℕ) → n ≡ length xs → drop n (xs ++ ys) ≡ ys
drop_front zero [] ys h = refl
drop_front zero (x ∷ xs) ys h = absurd (omega arith)
drop_front (suc n) [] ys h = absurd (omega arith)
drop_front (suc n) (x ∷ xs) ys h = drop_front n xs ys (omega arith)

-- What was put at `at` is there, and the length is what it was.
pub take-splice :
    (at : ℕ) (bytes buf : List ℕ)
    → at ≤ length buf
    → take (length bytes) (drop at (splice at bytes buf)) ≡ bytes
unfolding splice
take-splice at bytes buf h =
    let l : at ≡ length (take at buf) = ground (arith, length-take at buf) in
    ap (take (length bytes)) (drop_front at (take at buf) (bytes ++ drop (at + length bytes) buf) l)
    ∙ take_front (length bytes) bytes (drop (at + length bytes) buf) refl

pub length-splice :
    (at : ℕ) (bytes buf : List ℕ)
    → at + length bytes ≤ length buf
    → length (splice at bytes buf) ≡ length buf
unfolding splice
length-splice at bytes buf h = ground (
  arith,
  length-append (take at buf) (bytes ++ drop (at + length bytes) buf),
  length-append bytes (drop (at + length bytes) buf),
  length-take at buf,
  length-drop (at + length bytes) buf,
)

digits :
    (n : ℕ)
    → n < 2 ^ 32
    → n % 256 + n / 256 % 256 * 256 + n / 65536 % 256 * 65536 + n / 16777216 % 256 * 16777216 ≡ n
digits n h = omega arith

decode_inode_lem :
    (bytes : List ℕ) (i : DiskInode)
    → read32 0 bytes ≡ i.used
    → read32 4 bytes ≡ i.size
    → read32 8 bytes ≡ i.direct_block
    → take 64 (drop 12 bytes) ≡ i.name
    → decode_inode bytes ≡ i
unfolding decode_inode
decode_inode_lem bytes i a b c d = rw (a, b, c, d) refl

-- The inode is read back from its bytes, whatever follows them.
pub decode_inode-encode_inode :
    (i : DiskInode) (rest : List ℕ) → Fits i → decode_inode (encode_inode i ++ rest) ≡ i
unfolding encode_inode read32 le32
decode_inode-encode_inode i rest f =
    decode_inode_lem (encode_inode i ++ rest) i (digits i.used f.used) (digits i.size f.size)
      (digits i.direct_block f.direct_block) (take_front 64 i.name rest (sym f.name))

pub length-encode_inode : (i : DiskInode) → length i.name ≡ 64 → length (encode_inode i) ≡ 76
unfolding encode_inode le32
length-encode_inode i h = omega (arith, h)

-- What follows the place are the new bytes.
pub drop-splice :
    (at : ℕ) (bytes buf : List ℕ)
    → at ≤ length buf
    → drop at (splice at bytes buf) ≡ bytes ++ drop (at + length bytes) buf
unfolding splice
drop-splice at bytes buf h =
    let l : at ≡ length (take at buf) = ground (arith, length-take at buf) in
    drop_front at (take at buf) (bytes ++ drop (at + length bytes) buf) l
