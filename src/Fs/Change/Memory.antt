-- ===== src/Fs/Change/Memory.antt =====
-- What fs_create and fs_delete do to the directory and the bitmap in memory.
use kernel_hobby.Base.{
  ℕ, zero, suc, ◌+◌, ◌<◌, ◌≡◌, inl, inr, refl, ◌∙◌, Bool, true, List, [], ◌∷◌, arith, length,
  length-set, get_or-set_self, get_or-set_ne, set, All, ℕ_discrete, Bool-cases,
}
use kernel_hobby.Fs.Format.{Dirent, blank, maxfiles}
use kernel_hobby.Fs.Format.RoundTrip.{IsEntry}
use kernel_hobby.Fs.Alloc.{blocks_of, mark}
use kernel_hobby.Fs.Alloc.Laws.{within, mark_lem}
use kernel_hobby.Fs.Inv.{entry, Owns, IsPlaced, IsDirectory, IsBitmap}
use kernel_hobby.Fs.Change.{copy_name}

pub All-set :
    (ds : List Dirent) (i : ℕ) (e : Dirent) → All IsEntry ds → IsEntry e → All IsEntry (set ds i e)
All-set [] i e h p = tt
All-set (d ∷ ds) zero e h p = (p, h.1)
All-set (d ∷ ds) (suc i) e h p = (h.0, All-set ds i e h.1 p)

pub IsEntry-blank : IsEntry blank
IsEntry-blank = omega arith

pub IsEntry-entry : (ds : List Dirent) (i : ℕ) → All IsEntry ds → IsEntry (entry ds i)
IsEntry-entry [] i h = IsEntry-blank
IsEntry-entry (d ∷ ds) zero h = h.0
IsEntry-entry (d ∷ ds) (suc i) h = IsEntry-entry ds i h.1

pub length-copy_name : (n : ℕ) (name old : List ℕ) → length (copy_name n name old) ≡ length old
unfolding copy_name
length-copy_name n name [] = refl
length-copy_name zero name (x ∷ old) = refl
length-copy_name (suc n) [] (x ∷ old) = refl
length-copy_name (suc n) (c ∷ name) (x ∷ old) = ground (arith, length-copy_name n name old)

-- A new last file.
module _ {dir : List Dirent} {n : ℕ} (d : IsDirectory dir n) (room : n < maxfiles)
    (e : Dirent) where
  pub entry_new : entry (set dir n e) n ≡ e
  entry_new = get_or-set_self dir n e blank (omega (arith, d.all_slots))

  pub entry_old : (i : ℕ) → i < n → entry (set dir n e) i ≡ entry dir i
  entry_old i lt = get_or-set_ne dir n i e blank (omega arith)

  module _ (whole : IsEntry e) (place : IsPlaced e)
      (fresh : (i x : ℕ) → i < n → Owns (entry dir i) x → Owns e x → ⊥) where
    placed' : (i : ℕ) → i < n + 1 → IsPlaced (entry (set dir n e) i)
    placed' i lt = elim (ℕ_discrete i n) [
      | yes q ↦ rw (q, entry_new) place
      | no q ↦ rw (entry_old i (omega arith)) (d.placed i (omega arith))
    ]

    apart' :
        (i j x : ℕ)
        → i < n + 1
        → j < n + 1
        → Owns (entry (set dir n e) i) x
        → Owns (entry (set dir n e) j) x
        → i ≡ j
    apart' i j x li lj oi oj = elim (ℕ_discrete i n) [
      | yes q ↦ elim (ℕ_discrete j n) [
        | yes r ↦ omega arith
        | no r ↦ absurd (
            fresh j x (omega arith) (rw (entry_old j (omega arith)) at oj)
              (rw (q, entry_new) at oi))
      ]
      | no q ↦ elim (ℕ_discrete j n) [
        | yes r ↦ absurd (
            fresh i x (omega arith) (rw (entry_old i (omega arith)) at oi)
              (rw (r, entry_new) at oj))
        | no r ↦
            d.apart i j x (omega arith) (omega arith) (rw (entry_old i (omega arith)) at oi)
              (rw (entry_old j (omega arith)) at oj)
      ]
    ]

    pub set-IsDirectory : IsDirectory (set dir n e) (n + 1)
    set-IsDirectory = record {
      entries = All-set dir n e d.entries whole;
      all_slots = length-set dir n e ∙ d.all_slots;
      few = omega arith;
      placed = placed';
      apart = apart';
    }

    -- Marking its blocks keeps the bitmap exact.
    pub mark-IsBitmap :
        {used : ℕ → Bool}
        → IsBitmap dir n used
        → IsBitmap (set dir n e) (n + 1) (mark true e.start (blocks_of e.size) used)
    mark-IsBitmap {used} b = record {
      meta = λ x lt.
          ground (arith, mark_lem true e.start (blocks_of e.size) used x, b.meta x lt, place);
      marked = λ i x lt o. elim (ℕ_discrete i n) [
        | yes q ↦ ground (arith, mark_lem true e.start (blocks_of e.size) used x, place, entry_new)
        | no q ↦ ground (
          arith,
          mark_lem true e.start (blocks_of e.size) used x,
          place,
          b.marked i x,
          entry_old i,
        )
      ];
      owned = λ x u le. elim (Bool-cases (within e.start (blocks_of e.size) x)) [
        | inl o ↦ (n, omega arith, rw entry_new o)
        | inr o ↦
            let was : used x ≡ true =
              ground (arith, mark_lem true e.start (blocks_of e.size) used x place.within_map) in
            let (i, lt, own) = b.owned x was le in (i, omega arith, rw (entry_old i lt) own)
      ];
    }
