-- ===== src/Storage/Bio/Lookup.antt =====
-- kernel/bio.c: how the two searches of `bget` answer after a buffer or the list has changed.
use riscvos.Common.{
  ◌==◌, ◌||◌, Bool, ℕ, ◌≡◌, refl, ◌≢◌, true, false, none, some, List, [], ◌∷◌, arith, update,
}
use riscvos.Storage.Bio.{Buf, matches, is_free, hit, victim, unlink}

module _ (dev n : ℕ) where
  pub hit-matches :
      (f : ℕ → Buf) (ps : List ℕ) (p : ℕ) → hit dev n f ps ≡ some p → matches dev n (f p) ≡ true
  unfolding hit
  hit-matches f [] p h = cc
  hit-matches f (x ∷ ps) p h = ground (arith, hit-matches f ps p)

  -- Only the key of a buffer counts.
  pub hit-update_key :
      (f : ℕ → Buf) (q : ℕ) (b : Buf) (ps : List ℕ)
      → b.dev ≡ (f q).dev
      → b.blockno ≡ (f q).blockno
      → hit dev n (update f q b) ps ≡ hit dev n f ps
  unfolding hit
  hit-update_key f q b [] h k = refl
  hit-update_key f q b (x ∷ ps) h k = ground (arith, hit-update_key f q b ps h k)

  -- A buffer that is given another block does not hide the one that is found.
  pub hit-update_ne :
      (f : ℕ → Buf) (q : ℕ) (b : Buf) (ps : List ℕ) (p : ℕ)
      → q ≢ p
      → matches dev n b ≡ false
      → hit dev n f ps ≡ some p
      → hit dev n (update f q b) ps ≡ some p
  unfolding hit
  hit-update_ne f q b [] p h k e = cc
  hit-update_ne f q b (x ∷ ps) p h k e = ground (arith, hit-update_ne f q b ps p h k)

  -- A buffer that is recycled for a block which no buffer cached is the one that is found.
  pub hit-recycle :
      (f : ℕ → Buf) (q : ℕ) (b : Buf) (ps : List ℕ)
      → matches dev n b ≡ true
      → hit dev n f ps ≡ none
      → victim f ps ≡ some q
      → hit dev n (update f q b) ps ≡ some q
  unfolding hit victim
  hit-recycle f q b [] k e v = cc
  hit-recycle f q b (x ∷ ps) k e v = ground (arith, hit-recycle f q b ps k)

  pub hit-unlink :
      (f : ℕ → Buf) (q : ℕ) (ps : List ℕ) (p : ℕ)
      → q ≢ p
      → hit dev n f ps ≡ some p
      → hit dev n f (unlink q ps) ≡ some p
  unfolding hit unlink
  hit-unlink f q [] p h e = cc
  hit-unlink f q (x ∷ ps) p h e = ground (arith, hit-unlink f q ps p h)

  pub hit-unlink-none :
      (f : ℕ → Buf) (q : ℕ) (ps : List ℕ) → hit dev n f ps ≡ none → hit dev n f (unlink q ps) ≡ none
  unfolding hit unlink
  hit-unlink-none f q [] e = refl
  hit-unlink-none f q (x ∷ ps) e = ground (arith, hit-unlink-none f q ps)

pub victim-is_free :
    (f : ℕ → Buf) (ps : List ℕ) (q : ℕ) → victim f ps ≡ some q → is_free (f q) ≡ true
unfolding victim
victim-is_free f [] q h = cc
victim-is_free f (x ∷ ps) q h = ground (arith, victim-is_free f ps q)

-- Whether a pointer is on the list.
unfoldable pub listed : ℕ → List ℕ → Bool
listed p [] = false
listed p (q ∷ qs) = q == p || listed p qs

pub listed-front : (p q : ℕ) (ps : List ℕ) → listed p ps ≡ true → listed p (q ∷ unlink q ps) ≡ true
unfolding listed unlink
listed-front p q [] h = cc
listed-front p q (x ∷ ps) h = ground (arith, listed-front p q ps)

-- A free and clean buffer on the list is enough for the second search to succeed.
pub victim_found :
    (f : ℕ → Buf) (p : ℕ) (ps : List ℕ)
    → listed p ps ≡ true
    → is_free (f p) ≡ true
    → victim f ps ≢ none
unfolding victim listed
victim_found f p [] h free = cc
victim_found f p (x ∷ ps) h free = ground (arith, victim_found f p ps)
