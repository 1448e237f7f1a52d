-- ===== src/Tools/AqlToMem/Endless.antt =====
-- The dialog of aql2mem gives packets only after the answer END, also at the end of its input.
use lib_hsa.Base.{
  ℕ, zero, suc, ◌≡◌, ◌≢◌, Bool, true, false, ◌||◌, if◌then◌else◌, Text, codes, same_text, ◌==◌, ltb,
  u16, refl, refl,
}
use mathlib.Core.List.{List, [], ◌∷◌}
use lib_hsa.Packets.{barrier_and, barrier_or}
use lib_hsa.Tools.Numbers.{is_digit, decimal}
use lib_hsa.Tools.Result.{Result, ok, fail, ◌>>=◌}
use lib_hsa.Tools.AqlToMem.Header.{
  minus_one, get_ptype_int_representation, get_barrier_int_representation,
}
use lib_hsa.Tools.AqlToMem.Input.{
  Input, ready, failed, IntType, uint, int32, Extracted, extracted, rejected, behind_digits,
  digits_of, extract, left_over, stored, read_text, read_number,
}
use lib_hsa.Tools.AqlToMem.Dialog.{
  Read, ask_type, ask_barrier, ask_dim, ask_numsig, ask_sizes, ask_dispatch, add_dispatch,
  add_barrier, add_typed, ask_pasid, add_round, dialog,
}
use lib_hsa.Tools.AqlToMem.Queue.{Heap, Alloc}

-- No end of the word is END.
abbrev pub EndFree : Text → Type 0
EndFree [] = Unit
EndFree (c ∷ s) = (same_text (c ∷ s) (codes "END") ≡ false) × EndFree s

abbrev pub AllEndFree : List Text → Type 0
AllEndFree [] = Unit
AllEndFree (s ∷ later) = EndFree s × AllEndFree later

abbrev WithoutEnd : Input → Type 0
WithoutEnd failed = Unit
WithoutEnd (ready words) = AllEndFree words

EndFree-not_end : (s : Text) → EndFree s → same_text s (codes "END") ≡ false
EndFree-not_end [] h = refl
EndFree-not_end (c ∷ s) h = h.0

behind_digits-EndFree : (s : Text) → EndFree s → EndFree (behind_digits s)
behind_digits-EndFree [] h = tt
behind_digits-EndFree (c ∷ s) h =
    kept (is_digit c) (behind_digits s) (c ∷ s) (behind_digits-EndFree s h.1) h
  where
    kept : (b : Bool) (x y : Text) → EndFree x → EndFree y → EndFree (if b then x else y)
    kept true x y hx hy = hx
    kept false x y hx hy = hy

-- The rest behind a number has no END.
abbrev RestFree : Extracted → Type 0
RestFree (extracted value rest) = EndFree rest
RestFree (rejected value) = Unit

RestFree-if : (b : Bool) (x y : Extracted) → RestFree x → RestFree y → RestFree (if b then x else y)
RestFree-if true x y hx hy = hx
RestFree-if false x y hx hy = hy

digits_of-RestFree :
    (is_negative : Bool) (type : IntType) (s : Text)
    → EndFree s
    → RestFree (digits_of is_negative type s)
digits_of-RestFree is_negative type [] h = tt
digits_of-RestFree is_negative type (c ∷ s) h =
    let n = decimal (c ∷ s) 0 in
    let k = behind_digits-EndFree (c ∷ s) h in
    RestFree-if (is_digit c) _ (rejected 0)
      (RestFree-if is_negative _ _
        (RestFree-if (ltb type.least_magnitude n) (rejected type.too_small) (extracted _ _) tt k)
        (RestFree-if (ltb type.greatest n) (rejected type.greatest) (extracted _ _) tt k))
      tt

extract-RestFree : (type : IntType) (s : Text) → EndFree s → RestFree (extract type s)
extract-RestFree type [] h = tt
extract-RestFree type (c ∷ s) h = RestFree-if (c == b'-') _ _ (digits_of-RestFree true type s h.1) (
    RestFree-if (c == b'+') _ _ (digits_of-RestFree false type s h.1)
      (digits_of-RestFree false type (c ∷ s) h))

left_over-AllEndFree :
    (s : Text) (later : List Text) → EndFree s → AllEndFree later → AllEndFree (left_over s later)
left_over-AllEndFree [] later h k = k
left_over-AllEndFree (c ∷ s) later h k = (h, k)

stored-WithoutEnd :
    (e : Extracted) (later : List Text)
    → RestFree e
    → AllEndFree later
    → WithoutEnd ((stored e later).1)
stored-WithoutEnd (extracted value rest) later h k = left_over-AllEndFree rest later h k
stored-WithoutEnd (rejected value) later h k = tt

read_number-WithoutEnd :
    (type : IntType) (old : ℕ) (i : Input) → WithoutEnd i → WithoutEnd ((read_number type old i).1)
unfolding read_number
read_number-WithoutEnd type old failed h = tt
read_number-WithoutEnd type old (ready []) h = tt
read_number-WithoutEnd type old (ready (s ∷ later)) h =
    stored-WithoutEnd (extract type s) later (extract-RestFree type s h.0) h.1

read_text-WithoutEnd :
    (old : Text) (i : Input)
    → EndFree old
    → WithoutEnd i
    → EndFree ((read_text old i).0) × WithoutEnd ((read_text old i).1)
unfolding read_text
read_text-WithoutEnd old failed k h = (k, tt)
read_text-WithoutEnd old (ready []) k h = (k, tt)
read_text-WithoutEnd old (ready (s ∷ later)) k h = (h.0, h.1)

-- What is read satisfies `P`, and no END is in the input behind it.
abbrev Leaves : {A : Type 0} → (A → Type 0) → Read A → Type 0
Leaves P (ok (a, i)) = P a × WithoutEnd i
Leaves P (fail f) = Unit

abbrev Anything : {A : Type 0} → A → Type 0
Anything a = Unit

Leaves-if :
    {A : Type 0} (P : A → Type 0) (b : Bool) (x y : Read A)
    → Leaves P x
    → Leaves P y
    → Leaves P (if b then x else y)
Leaves-if P true x y hx hy = hx
Leaves-if P false x y hx hy = hy

Leaves-bind :
    {A B : Type 0} (P : A → Type 0) (Q : B → Type 0) (r : Read A) (f : A × Input → Read B)
    → Leaves P r
    → ((a : A) (i : Input) → P a → WithoutEnd i → Leaves Q (f (a, i)))
    → Leaves Q (r >>= f)
Leaves-bind P Q (ok (a, i)) f h k = k a i h.0 h.1
Leaves-bind P Q (fail e) f h k = tt

-- A step that reads nothing.
Leaves-step :
    (r : Result Alloc) (i : Input)
    → WithoutEnd i
    → Leaves Anything (r >>= (λ (a : Alloc). ok (a, i)))
Leaves-step (ok a) i h = (tt, h)
Leaves-step (fail e) i h = tt

abbrev Adds : Bool × ℕ → Type 0
Adds t = t.0 ≡ true

ask_type-Leaves :
    (rounds : ℕ) (old : Text) (i : Input)
    → EndFree old
    → WithoutEnd i
    → Leaves Adds (ask_type rounds old i)
unfolding ask_type
ask_type-Leaves zero old i k h = tt
ask_type-Leaves (suc rounds) old i k h =
    let (k', h') = read_text-WithoutEnd old i k h in
    rw (EndFree-not_end ((read_text old i).0) k') (
      Leaves-if Adds (get_ptype_int_representation ((read_text old i).0) == minus_one) _ _
        (ask_type-Leaves rounds ((read_text old i).0) ((read_text old i).1) k' h') (refl, h'))

ask_barrier-Leaves :
    (rounds : ℕ) (old : Text) (i : Input)
    → EndFree old
    → WithoutEnd i
    → Leaves Anything (ask_barrier rounds old i)
unfolding ask_barrier
ask_barrier-Leaves zero old i k h = tt
ask_barrier-Leaves (suc rounds) old i k h =
    let (k', h') = read_text-WithoutEnd old i k h in
    Leaves-if Anything (u16 (get_barrier_int_representation ((read_text old i).0)) == minus_one) _ _
      (ask_barrier-Leaves rounds ((read_text old i).0) ((read_text old i).1) k' h') (tt, h')

ask_dim-Leaves :
    (rounds old : ℕ) (i : Input) → WithoutEnd i → Leaves Anything (ask_dim rounds old i)
unfolding ask_dim
ask_dim-Leaves zero old i h = tt
ask_dim-Leaves (suc rounds) old i h =
    let r = read_number (uint 32) old i in
    let h' = read_number-WithoutEnd (uint 32) old i h in
    Leaves-if Anything (ltb 3 (r.0) || r.0 == 0) _ _ (ask_dim-Leaves rounds (r.0) (r.1) h') (tt, h')

ask_numsig-Leaves :
    (rounds old : ℕ) (i : Input) → WithoutEnd i → Leaves Anything (ask_numsig rounds old i)
unfolding ask_numsig
ask_numsig-Leaves zero old i h = tt
ask_numsig-Leaves (suc rounds) old i h =
    let r = read_number int32 old i in
    let h' = read_number-WithoutEnd int32 old i h in
    Leaves-if Anything (ltb 5 (r.0) || ltb (r.0) 1) _ _ (ask_numsig-Leaves rounds (r.0) (r.1) h')
      (tt, h')

ask_sizes-WithoutEnd : (op dim : ℕ) (i : Input) → WithoutEnd i → WithoutEnd ((ask_sizes op dim i).1)
unfolding ask_sizes
ask_sizes-WithoutEnd op dim i h = next _ (next _ (next _ (next _ (next _ (next i h)))))
  where
    next : (j : Input) → WithoutEnd j → WithoutEnd ((read_number (uint 32) 1 j).1)
    next j k = read_number-WithoutEnd (uint 32) 1 j k

ask_dispatch-Leaves :
    (rounds : ℕ) (i : Input) → WithoutEnd i → Leaves Anything (ask_dispatch rounds i)
unfolding ask_dispatch
ask_dispatch-Leaves rounds i h =
    let r = read_number (uint 64) 0 i in
    Leaves-bind Anything Anything (ask_dim rounds 0 (r.1)) _
      (ask_dim-Leaves rounds 0 (r.1) (read_number-WithoutEnd (uint 64) 0 i h))
      λ dim s2 p h2. (tt, ask_sizes-WithoutEnd (r.0) dim s2 h2)

module _ (heap : Heap) (rounds : ℕ) where
  add_typed-Leaves :
      (ptype barrier : ℕ) (i : Input) (a : Alloc)
      → WithoutEnd i
      → Leaves Anything (add_typed heap rounds ptype barrier i a)
  unfolding add_typed add_dispatch add_barrier
  add_typed-Leaves ptype barrier i a h =
      Leaves-if Anything (ptype == 2) _ _
        (Leaves-bind Anything Anything (ask_dispatch rounds i) _ (ask_dispatch-Leaves rounds i h)
          λ d s p k. Leaves-step _ s k)
        (Leaves-if Anything (ptype == 3) _ _ signals
          (Leaves-if Anything (ptype == 5) _ _ signals_or (tt, h)))
    where
      signals : Leaves Anything (add_barrier heap rounds barrier_and barrier i a)
      signals =
          Leaves-bind Anything Anything (ask_numsig rounds 0 i) _ (ask_numsig-Leaves rounds 0 i h)
            λ n s p k. Leaves-step _ s k

      signals_or : Leaves Anything (add_barrier heap rounds barrier_or barrier i a)
      signals_or =
          Leaves-bind Anything Anything (ask_numsig rounds 0 i) _ (ask_numsig-Leaves rounds 0 i h)
            λ n s p k. Leaves-step _ s k

  ask_pasid-Leaves :
      (ptype : ℕ) (i : Input) (a : Alloc)
      → WithoutEnd i
      → Leaves Anything (ask_pasid heap rounds ptype i a)
  unfolding ask_pasid
  ask_pasid-Leaves ptype i a h =
      Leaves-if Anything (ptype == minus_one) _ _ (tt, h)
        (Leaves-step _ _ (read_number-WithoutEnd (uint 32) 1 i h))

  abbrev GoesOn : Bool × Alloc → Type 0
  GoesOn r = r.0 ≡ true

  add_round-Leaves :
      (i : Input) (a : Alloc) → WithoutEnd i → Leaves GoesOn (add_round heap rounds i a)
  unfolding add_round
  add_round-Leaves i a h =
      Leaves-bind Adds GoesOn (ask_type rounds [] i) _ (ask_type-Leaves rounds [] i tt h)
        λ t s1 adds h1.
          Leaves-bind Anything GoesOn (ask_pasid heap rounds (t.1) s1 a) _
            (ask_pasid-Leaves (t.1) s1 a h1)
            λ named s2 p h2.
              Leaves-bind Anything GoesOn (ask_barrier rounds [] s2) _
                (ask_barrier-Leaves rounds [] s2 tt h2)
                λ barrier s3 q h3.
                  Leaves-bind Anything GoesOn (add_typed heap rounds (t.1) barrier s3 named) _
                    (add_typed-Leaves (t.1) barrier s3 named h3) λ a' s4 o h4. (adds, h4)

  next_round :
      (fuel : ℕ) (r : Read (Bool × Alloc)) (a : Alloc)
      → Leaves GoesOn r
      → ((i : Input) (b : Alloc) → WithoutEnd i → dialog heap rounds fuel i b ≢ ok a)
      → (r >>= (λ p. if p.0.0 then dialog heap rounds fuel (p.1) (p.0.1) else ok (p.0.1))) ≢ ok a
  next_round fuel (ok ((adding, b), i)) a h k = rw (h.0) (k i b h.1)
  next_round fuel (fail e) a h k = λ q. cc

  dialog-not_ok :
      (fuel : ℕ) (i : Input) (b a : Alloc) → WithoutEnd i → dialog heap rounds fuel i b ≢ ok a
  unfolding dialog
  dialog-not_ok zero i b a h = λ q. cc
  dialog-not_ok (suc fuel) i b a h =
      next_round fuel (add_round heap rounds i b) a (add_round-Leaves i b h)
        (λ j c k. dialog-not_ok fuel j c a k)

-- If no word of the input ends in END, the dialog gives no packets, however many rounds its loops
-- are given, although the input ends.
pub without_end_no_result :
    (heap : Heap) (rounds fuel : ℕ) (words : List Text) (b a : Alloc)
    → AllEndFree words
    → dialog heap rounds fuel (ready words) b ≢ ok a
without_end_no_result heap rounds fuel words b a h =
    dialog-not_ok heap rounds fuel (ready words) b a h
