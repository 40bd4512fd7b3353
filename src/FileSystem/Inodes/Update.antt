-- ===== src/FileSystem/Inodes/Update.antt =====
-- kernel/fs.c: an inode that `iupdate` writes and `ilock` reads again.
use riscvos.Common.{
  ℕ, zero, suc, ◌+◌, ◌/◌, ◌%◌, ◌^◌, ◌<◌, ◌≤◌, ◌≡◌, refl, ◌≢◌, ◌⊎◌, inl, inr, ◌∙◌, arith, true,
  if_then, lt→ltb, ltb,
}
use native.Mathlib.Decide.{ℕ_discrete, dec_lt}
use riscvos.Storage.Bio.{Block}
use riscvos.Storage.Bytes.{get_word, put_word, get_word-put_word_self, get_word-put_word_ne}
use riscvos.FileSystem.{Inode}
use riscvos.FileSystem.Inodes.{get_half, put_half, get_addrs, put_addrs, dinode_at, dinode_of}

-- The loop leaves the bytes outside of the words that it stores.
put_addrs-out :
    (f : ℕ → ℕ) (o k i j : ℕ) (b : Block)
    → (j / 4 < o / 4 + 3 + i) ⊎ (o / 4 + 3 + i + k ≤ j / 4)
    → put_addrs f o k i b j ≡ b j
unfolding put_addrs put_word
put_addrs-out f o zero i j b h = refl
put_addrs-out f o (suc k) i j b h =
    put_addrs-out f o k (i + 1) j (put_word (o / 4 + 3 + i) (f i) b) (ground arith) ∙ ground arith

get_word-put_addrs_ne :
    (f : ℕ → ℕ) (o k i w : ℕ) (b : Block)
    → w < o / 4 + 3 + i
    → get_word (put_addrs f o k i b) w ≡ get_word b w
unfolding put_addrs
get_word-put_addrs_ne f o zero i w b h = refl
get_word-put_addrs_ne f o (suc k) i w b h =
    get_word-put_addrs_ne f o k (i + 1) w (put_word (o / 4 + 3 + i) (f i) b) (omega arith)
    ∙ get_word-put_word_ne (o / 4 + 3 + i) w (f i) b (λ e. omega arith)

-- It stores every address.
get_word-put_addrs :
    (f : ℕ → ℕ) (o k i j : ℕ) (b : Block)
    → i ≤ j
    → j < i + k
    → f j < 2 ^ 32
    → get_word (put_addrs f o k i b) (o / 4 + 3 + j) ≡ f j
unfolding put_addrs
get_word-put_addrs f o zero i j b lo hi h = absurd (omega arith)
get_word-put_addrs f o (suc k) i j b lo hi h = elim (ℕ_discrete i j) [
  | yes e ↦
      get_word-put_addrs_ne f o k (i + 1) (o / 4 + 3 + j) (put_word (o / 4 + 3 + i) (f i) b)
        (omega arith)
      ∙ rw e (get_word-put_word_self (o / 4 + 3 + j) (f j) b h)
  | no ne ↦
      get_word-put_addrs f o k (i + 1) j (put_word (o / 4 + 3 + i) (f i) b) (omega arith)
        (omega arith) h
]

-- The fields fit the dinode's.
pub record Fits (ip : Inode) : Type 0 where
  pub kind : ip.kind < 2 ^ 16
  pub major : ip.major < 2 ^ 16
  pub minor : ip.minor < 2 ^ 16
  pub nlink : ip.nlink < 2 ^ 16
  pub size : ip.size < 2 ^ 32
  pub addrs : (i : ℕ) → i < 13 → ip.addrs i < 2 ^ 32

abbrev halves : ℕ → Inode → Block → Block
halves o ip d =
    put_half (o + 6) ip.nlink
      (put_half (o + 4) ip.minor (put_half (o + 2) ip.major (put_half o ip.kind d)))

abbrev sized : ℕ → Inode → Block → Block
sized o ip d = put_word (o / 4 + 2) ip.size (halves o ip d)

-- What `iupdate` stores of an inode, and `ilock` reads.
pub record SameDinode (e ip : Inode) : Type 0 where
  pub kind : e.kind ≡ ip.kind
  pub major : e.major ≡ ip.major
  pub minor : e.minor ≡ ip.minor
  pub nlink : e.nlink ≡ ip.nlink
  pub size : e.size ≡ ip.size
  pub addrs : (i : ℕ) → i < 13 → e.addrs i ≡ ip.addrs i

-- The dinode that `ilock` finds in a block for an inode number.
abbrev pub fetched : ℕ → Block → Inode → Inode
fetched inum d e =
    let o = dinode_at inum in
    record e {
      kind = get_half d o;
      major = get_half d (o + 2);
      minor = get_half d (o + 4);
      nlink = get_half d (o + 6);
      size = get_word d (o / 4 + 2);
      addrs = get_addrs d o e.addrs;
      valid = true;
    }

module _ (ip : Inode) (d : Block) where
  abbrev at : ℕ
  at = dinode_at ip.inum

  low_bytes : (j : ℕ) → j < 8 → dinode_of ip d (at + j) ≡ halves at ip d (at + j)
  unfolding dinode_of put_word
  low_bytes j h =
      put_addrs-out ip.addrs at 13 0 (at + j) (sized at ip d) (inl (omega arith)) ∙ ground arith

  pub dinode_of-fetched : (e : Inode) → Fits ip → SameDinode (fetched ip.inum (dinode_of ip d) e) ip
  unfolding dinode_of
  dinode_of-fetched e f = record {
    kind = ground (arith, low_bytes 0, low_bytes 1, f.kind);
    major = ground (arith, low_bytes 2, low_bytes 3, f.major);
    minor = ground (arith, low_bytes 4, low_bytes 5, f.minor);
    nlink = ground (arith, low_bytes 6, low_bytes 7, f.nlink);
    size =
        get_word-put_addrs_ne ip.addrs at 13 0 (at / 4 + 2) (sized at ip d) (omega arith)
        ∙ get_word-put_word_self (at / 4 + 2) ip.size (halves at ip d) f.size;
    addrs = λ i h.
        if_then (ltb i 13) (get_word (dinode_of ip d) (at / 4 + 3 + i)) (e.addrs i) (lt→ltb i 13 h)
        ∙ get_word-put_addrs ip.addrs at 13 0 i (sized at ip d) (omega arith) (omega arith)
            (f.addrs i h);
  }

  -- The other dinodes of the block stay as they are.
  pub dinode_of-out : (j : ℕ) → j / 64 ≢ ip.inum % 16 → dinode_of ip d j ≡ d j
  unfolding dinode_of put_word
  dinode_of-out j ne = elim (dec_lt j at) [
    | yes lo ↦ put_addrs-out ip.addrs at 13 0 j (sized at ip d) (inl (omega arith)) ∙ ground arith
    | no hi ↦ put_addrs-out ip.addrs at 13 0 j (sized at ip d) (inr (omega arith)) ∙ ground arith
  ]
