-- ===== src/AtomicFile/Laws.antt =====
-- What is found under the path while internal/atomicfile/atomicfile.go replaces a file, and after it.
use mathlib.Core.List.{append_assoc}
use dataporch.Prelude.{
  take, ℕ, zero, suc, ◌<◌, ◌≡◌, refl, ◌⊎◌, inl, inr, true, false, List, [], ◌∷◌, ◌++◌, ◌==◌, none,
  some, drop, length, length-drop, take-append-drop, All, arith, Bool-cases,
}
use dataporch.Text.{Text}
use dataporch.Fault.{Result, ok, Result-cases}
use dataporch.AtomicFile.{
  Directory, Answers, written_file, with_temporary, write_loop, write_all, remove_temporary,
  publish, fill, replace, last_state,
}

-- What a loop that succeeds has written is all that it was given.
write_loop-ok :
    (fuel : ℕ) (write : ℕ → Text → Result ℕ) (n : ℕ) (payload : Text)
    → (write_loop fuel write n payload).0 ≡ ok tt
    → (write_loop fuel write n payload).1 ≡ payload
unfolding write_loop
write_loop-ok zero write n payload h = ground (arith, h)
write_loop-ok (suc fuel) write n [] h = refl
write_loop-ok (suc fuel) write n (b ∷ rest) h = elim (Result-cases (write n (b ∷ rest))) [
  | inr (e, q) ↦ absurd (ground (arith, q, h))
  | inl (w, q) ↦ ground (
    arith,
    q,
    h,
    write_loop-ok fuel write (suc n) (drop w (b ∷ rest)),
    take-append-drop w (b ∷ rest),
  )
]

-- Any fuel above the number of bytes gives the same run: the loop has ended before it is used up.
write_loop_settled :
    (f g : ℕ) (write : ℕ → Text → Result ℕ) (n : ℕ) (payload : Text)
    → length payload < f
    → length payload < g
    → write_loop f write n payload ≡ write_loop g write n payload
unfolding write_loop
write_loop_settled zero g write n payload h k = absurd (omega (arith, h))
write_loop_settled (suc f) zero write n payload h k = absurd (omega (arith, k))
write_loop_settled (suc f) (suc g) write n [] h k = refl
write_loop_settled (suc f) (suc g) write n (b ∷ rest) h k =
    elim (Result-cases (write n (b ∷ rest))) [
      | inr (e, q) ↦ ground (arith, q)
      | inl (w, q) ↦ ground (
        arith,
        q,
        length-drop w (b ∷ rest),
        write_loop_settled f g write (suc n) (drop w (b ∷ rest)),
      )
    ]

-- What has been written is a beginning of what was given.
write_loop-prefix :
    (fuel : ℕ) (write : ℕ → Text → Result ℕ) (n : ℕ) (payload : Text)
    → (rest : Text) × ((write_loop fuel write n payload).1 ++ rest ≡ payload)
unfolding write_loop
write_loop-prefix zero write n payload = (payload, refl)
write_loop-prefix (suc fuel) write n [] = ([], refl)
write_loop-prefix (suc fuel) write n (b ∷ rest) = elim (Result-cases (write n (b ∷ rest))) [
  | inr (e, q) ↦ (b ∷ rest, ground (arith, q))
  | inl (w, q) ↦
      let (left, p) = write_loop-prefix fuel write (suc n) (drop w (b ∷ rest)) in
      elim (Bool-cases (w == 0)) [
        | inl z ↦ (b ∷ rest, ground (arith, q, z))
        | inr z ↦ (
          left,
          ground (
            arith,
            q,
            z,
            p,
            append_assoc (take w (b ∷ rest)) (write_loop fuel write (suc n) (drop w (b ∷ rest))).1
                left,
            take-append-drop w (b ∷ rest),
          ),
        )
      ]
]

write_all-ok :
    (write : ℕ → Text → Result ℕ) (payload : Text)
    → (write_all write payload).0 ≡ ok tt
    → (write_all write payload).1 ≡ payload
unfolding write_all
write_all-ok write payload h = write_loop-ok (suc (length payload)) write 0 payload h

-- Whatever the writer does in each call, the loop over the writes ends: it makes at most one round for
-- each byte and one more, as a longer allowance of rounds changes nothing. What it has written is a
-- beginning of what it was given, and when it reports success, all of it.
pub write_all_ends :
    (fuel : ℕ) (write : ℕ → Text → Result ℕ) (payload : Text)
    → length payload < fuel
    → (write_loop fuel write 0 payload ≡ write_all write payload)
      × ((rest : Text) × ((write_all write payload).1 ++ rest ≡ payload))
      × ((write_all write payload).0 ≡ ok tt → (write_all write payload).1 ≡ payload)
unfolding write_all
write_all_ends fuel write payload h = (
  write_loop_settled fuel (suc (length payload)) write 0 payload h (omega arith),
  write_loop-prefix (suc (length payload)) write 0 payload,
  write_all-ok write payload,
)

-- The path holds what it held before, or the whole new content, synced.
abbrev pub IsOldOrNew : Text → ℕ → Directory → Directory → Type 0
IsOldOrNew payload permission d x =
    (x.target ≡ d.target) ⊎ (x.target ≡ some (written_file permission payload true))

module _ (a : Answers) (payload : Text) (permission : ℕ) (d : Directory) where
  remove_temporary-All :
      (x : Directory) (passed : List Directory)
      → IsOldOrNew payload permission d x
      → All (IsOldOrNew payload permission d) passed
      → All (IsOldOrNew payload permission d) (remove_temporary a x passed)
  unfolding remove_temporary
  remove_temporary-All x passed h k = elim (Bool-cases a.removed) [
    | inl q ↦ rw q (h, k)
    | inr q ↦ rw q k
  ]

  publish-All :
      (x : Directory) (passed : List Directory)
      → x.target ≡ d.target
      → All (IsOldOrNew payload permission d) passed
      → All
          (IsOldOrNew payload permission d)
          (publish a (written_file permission payload true) x passed).1
  unfolding publish
  publish-All x passed h k = elim (Result-cases a.rename) [
    | inr (e, q) ↦ rw (q, publish) (remove_temporary-All x passed (inl h) k)
    | inl (u, q) ↦ rw (q, publish) (inr refl, k)
  ]

  fill-All : All (IsOldOrNew payload permission d) (fill a payload permission d).1
  unfolding fill
  fill-All =
      let w = write_all a.write payload in
      let empty = with_temporary d (written_file 384 [] false) in
      let filled = with_temporary d (written_file permission w.1 false) in
      elim (Result-cases a.chmod) [
        | inr (e, q) ↦
            rw (q, fill) (remove_temporary-All empty (empty ∷ []) (inl refl) (inl refl, tt))
        | inl (u, q) ↦ elim (Result-cases w.0) [
          | inr (e, k) ↦
              rw (q, fill)
                (rw (k, fill)
                  (remove_temporary-All filled (filled ∷ empty ∷ []) (inl refl)
                    (inl refl, (inl refl, tt))))
          | inl (v, k) ↦ elim (Result-cases a.sync) [
            | inr (e, l) ↦
                rw (q, fill)
                  (rw (k, fill)
                    (rw (l, fill)
                      (remove_temporary-All filled (filled ∷ empty ∷ []) (inl refl)
                        (inl refl, (inl refl, tt)))))
            | inl (x, l) ↦
                let synced = with_temporary d (written_file permission w.1 true) in
                elim (Result-cases a.close) [
                  | inr (e, c) ↦
                      rw (q, fill)
                        (rw (k, fill)
                          (rw (l, fill)
                            (rw (c, fill)
                              (remove_temporary-All synced (synced ∷ filled ∷ empty ∷ []) (inl refl)
                                (inl refl, (inl refl, (inl refl, tt)))))))
                  | inl (y, c) ↦
                      let all_there : w.1 ≡ payload = write_all-ok a.write payload k in
                      rw (q, fill)
                        (rw (k, fill)
                          (rw (l, fill)
                            (rw (c, fill)
                              (rw all_there
                                (publish-All _ _ refl (inl refl, (inl refl, (inl refl, tt))))))))
                ]
          ]
        ]
      ]

  -- Whatever the calls return, in every state that the directory passes through the path holds what
  -- it held before or the whole new content, synced: never a part of it.
  pub replace-IsOldOrNew : All (IsOldOrNew payload permission d) (replace a payload permission d).1
  unfolding replace
  replace-IsOldOrNew = elim (Result-cases a.created) [
    | inr (e, q) ↦ rw (q, replace) tt
    | inl (true, q) ↦ rw (q, replace) fill-All
    | inl (false, q) ↦ rw (q, replace) tt
  ]

  -- A replacement that succeeds leaves the new content, and no temporary file.
  pub replace-ok :
      (replace a payload permission d).0 ≡ ok tt
      → last_state d (replace a payload permission d).1
        ≡ record { target = some (written_file permission payload true); temporary = none }
  unfolding replace fill publish
  replace-ok h = ground (arith, h, write_all-ok a.write payload)
