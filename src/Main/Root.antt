-- ===== src/Main/Root.antt =====
-- dnrd-2.20.3/src/main.c: what the check of the directory accepts.
use Prim.Native.Nat.{bit_and}
use dnrd.Prelude.{
  ℕ, Bool, true, false, ◌||◌, ◌≡◌, refl, List, [], ◌∷◌, some, arith, ◌==◌, inl, inr, if◌then◌else◌,
  not, All, Bool-cases, Option-cases, codes,
}
use dnrd.Text.{streq}
use dnrd.Main.{Stat, Entry, RootDir, check_entry, check_entries, root_stat, dnrd_root_sanity_check}

-- A file of root that is no directory, that nobody may execute, and that only its owner may write.
abbrev pub Harmless : Stat → Type 0
Harmless st = (st.is_dir ≡ false) × (bit_and st.st_mode 91 ≡ 0) × (st.st_uid ≡ 0)

-- An entry is the directory itself, or its parent, or cannot be looked at, or is harmless.
abbrev pub Accepted : Entry → Type 0
Accepted e =
    (streq e.d_name (codes ".") || streq e.d_name (codes "..")) ≡ false
    → (st : Stat) → e.st ≡ some st
    → Harmless st

abbrev pub GoodRoot : RootDir → Type 0
GoodRoot d =
    (d.can_chdir ≡ true)
    × (d.can_open ≡ true)
    × ((root_stat d).st_uid ≡ 0)
    × (bit_and (root_stat d).st_mode 18 ≡ 0)
    × All Accepted d.entries

check_entry-Accepted : (e : Entry) → check_entry e ≡ true → Accepted e
unfolding check_entry
check_entry-Accepted e c named st s = let c' = rw (named, check_entry, s) at c in ground (arith, c')

Accepted-check_entry : (e : Entry) → Accepted e → check_entry e ≡ true
unfolding check_entry
Accepted-check_entry e a =
    elim (Bool-cases (streq e.d_name (codes ".") || streq e.d_name (codes ".."))) [
      | inl n ↦ rw (n, check_entry) refl
      | inr n ↦ elim (Option-cases e.st) [
        | inl o ↦ rw (n, check_entry, o) refl
        | inr (st, o) ↦ let h = a n st o in rw (n, check_entry, o) (ground (arith, h))
      ]
    ]

check_entries-Accepted : (l : List Entry) → check_entries l ≡ true → All Accepted l
unfolding check_entries
check_entries-Accepted [] c = tt
check_entries-Accepted (e ∷ l) c = elim (Bool-cases (check_entry e)) [
  | inl o ↦ (check_entry-Accepted e o, check_entries-Accepted l (rw (o, check_entries) at c))
  | inr o ↦ absurd (ground (arith, rw (o, check_entries) at c))
]

Accepted-check_entries : (l : List Entry) → All Accepted l → check_entries l ≡ true
unfolding check_entries
Accepted-check_entries [] a = refl
Accepted-check_entries (e ∷ l) a =
    rw (Accepted-check_entry e a.0, check_entries) (Accepted-check_entries l a.1)

four_tests :
    (uid mode : ℕ) (a b c : Bool)
    → (if not a
        then false
        else if not b
        then false
        else if not (uid == 0)
        then false
        else if not (mode == 0)
        then false
        else c)
      ≡ true
    → (a ≡ true) × (b ≡ true) × (uid ≡ 0) × (mode ≡ 0)
four_tests uid mode a b c e = ground (arith, e)

-- The check returns exactly for a directory of root that can be entered and read, that only root may
-- write, and whose entries, but for itself and its parent, are no directories, are root's, and may neither be
-- executed nor be written by others, as far as `stat` succeeds for them. (A failure of `stat` for the directory
-- itself is not noticed.)
pub sanity_check_lem :
    (d : RootDir)
    → (dnrd_root_sanity_check d ≡ true → GoodRoot d)
      × (GoodRoot d → dnrd_root_sanity_check d ≡ true)
unfolding dnrd_root_sanity_check
sanity_check_lem d = (
  λ c. elim (Bool-cases (check_entries d.entries)) [
    | inl o ↦
        let accepted = check_entries-Accepted d.entries o in
        let four : (d.can_chdir ≡ true)
            × (d.can_open ≡ true)
            × ((root_stat d).st_uid ≡ 0)
            × (bit_and (root_stat d).st_mode 18 ≡ 0) =
          four_tests (root_stat d).st_uid (bit_and (root_stat d).st_mode 18) d.can_chdir d.can_open
            (check_entries d.entries) c in
        (four.0, four.1, four.2, four.3, accepted)
    | inr o ↦ absurd (ground (arith, o, c))
  ],
  λ (g0, g1, g2, g3, g4). rw (g0, g1, g2, g3, Accepted-check_entries d.entries g4) refl,
)
