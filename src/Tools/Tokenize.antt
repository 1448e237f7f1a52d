-- ===== src/Tools/Tokenize.antt =====
-- `tokenize` of tools/hex_tools/src/mti2hex.cpp and of tools/prepare_segments/src/vsim2cmd.cpp,
-- which differ in the test for the last item. Lines are shorter than 2^32 characters.
use lib_hsa.Base.{
  ℕ, ◌+◌, ◌-◌, ◌≡◌, refl, ap, arith, ◌==◌, if◌then◌else◌, get_or, length, leb, Bool, not, ◌&&◌, sym,
  Bool-cases, inl, inr, eq→==, false, true, ne→==, length-append, ◌∙◌, ◌≢◌, ◌≤◌, le→leb,
}
use mathlib.Core.Path.{subst}
use mathlib.Core.List.{List, [], ◌∷◌, ◌++◌, append-nil, append_assoc}
use lib_hsa.Tools.Text.{Text, substr, Lacks, All, drop-append, take-append, last-append, All-last}

-- The variables of the loop: the items so far, where the open item begins, and its length.
pub record Scan : Type 0 where
  pub vec : List Text
  pub last : ℕ
  pub item_length : ℕ

module _ (line : Text) (separator : ℕ) where
  -- The item ends at the separator at position `i`.
  abbrev close_item : ℕ → Scan → Scan
  close_item i s = record {
    vec = s.vec ++ substr line s.last s.item_length ∷ [];
    last = i + 1;
    item_length = 0;
  }

  -- One round for each character, `i` being its position.
  unfoldable pub scan : (rest : Text) → (i : ℕ) → Scan → Scan
  scan [] i s = s
  scan (c ∷ rest) i s =
      scan rest (i + 1)
        (if c == separator then close_item i s else record s { item_length = s.item_length + 1 })

  unfoldable pub scan_line : Scan
  unfolding scan
  scan_line = scan line 0 (record { vec = []; last = 0; item_length = 0 })

  -- The open item, if the line does not end with a separator.
  unfoldable pub finish : (long_enough : Bool) → Scan → List Text
  finish long_enough s =
      if long_enough && not (get_or line (length line - 1) 0 == separator)
      then s.vec ++ substr line s.last s.item_length ∷ []
      else s.vec

-- The items that end with a separator, and the rest of the line, which is still open.
unfoldable pieces : ℕ → Text → Text → List Text × Text
pieces separator [] cur = ([], cur)
pieces separator (c ∷ rest) cur =
    let (after, left) = pieces separator rest [] in
    let (longer, left_of_longer) = pieces separator rest (cur ++ c ∷ []) in
    if c == separator then (cur ∷ after, left) else (longer, left_of_longer)

-- Every item with a separator behind it.
abbrev pub terminated : ℕ → List Text → Text
terminated separator [] = []
terminated separator (t ∷ ts) = t ++ separator ∷ terminated separator ts

pieces_at_separator :
    (separator c : ℕ) (rest cur : Text)
    → (c == separator) ≡ true
    → pieces separator (c ∷ rest) cur
      ≡ (cur ∷ (pieces separator rest []).0, (pieces separator rest []).1)
unfolding pieces
pieces_at_separator separator c rest cur q = rw q refl

pieces_at_other :
    (separator c : ℕ) (rest cur : Text)
    → (c == separator) ≡ false
    → pieces separator (c ∷ rest) cur ≡ pieces separator rest (cur ++ c ∷ [])
unfolding pieces
pieces_at_other separator c rest cur q = rw q refl

pieces_item :
    (separator : ℕ) (t rest cur : Text)
    → Lacks separator t
    → pieces separator (t ++ rest) cur ≡ pieces separator rest (cur ++ t)
pieces_item separator [] rest cur _ = rw append-nil refl
pieces_item separator (c ∷ t) rest cur (hc, h) =
    rw
      (
        pieces_at_other separator c (t ++ rest) cur (ne→== c separator hc),
        pieces_item separator t rest (cur ++ c ∷ []) h,
        append_assoc cur (c ∷ []) t,
      )
      refl

pieces-terminated :
    (separator : ℕ) (ts : List Text) (final : Text)
    → All (Lacks separator) ts
    → Lacks separator final
    → pieces separator (terminated separator ts ++ final) [] ≡ (ts, final)
pieces-terminated separator [] final _ h =
    unfold pieces in
    subst (λ (l : Text). pieces separator l [] ≡ ([], final)) (append-nil final)
      (pieces_item separator final [] [] h)
pieces-terminated separator (t ∷ ts) final (ht, hs) h =
    rw
      (
        append_assoc t (separator ∷ terminated separator ts) final,
        pieces_item separator t (separator ∷ (terminated separator ts ++ final)) [] ht,
        pieces_at_separator separator separator (terminated separator ts ++ final) t
            (eq→== separator separator refl),
        pieces-terminated separator ts final hs h,
      )
      refl

module _ (line : Text) (separator : ℕ) where
  scan_at_separator :
      (c : ℕ) (rest : Text) (i : ℕ) (s : Scan)
      → (c == separator) ≡ true
      → scan line separator (c ∷ rest) i s
        ≡ scan line separator rest (i + 1) (close_item line separator i s)
  unfolding scan
  scan_at_separator c rest i s q = rw q refl

  scan_at_other :
      (c : ℕ) (rest : Text) (i : ℕ) (s : Scan)
      → (c == separator) ≡ false
      → scan line separator (c ∷ rest) i s
        ≡ scan line separator rest (i + 1) (record s { item_length = s.item_length + 1 })
  unfolding scan
  scan_at_other c rest i s q = rw q refl

  abbrev Spells : Text → Text → Text → ℕ → Scan → Type 0
  Spells before cur rest i s =
      (line ≡ before ++ (cur ++ rest))
      × (s.last ≡ length before)
      × (s.item_length ≡ length cur)
      × (i ≡ length before + length cur)

  substr-Spells :
      (before cur rest : Text) (i : ℕ) (s : Scan)
      → Spells before cur rest i s
      → substr line s.last s.item_length ≡ cur
  substr-Spells before cur rest i s (e, hl, hn, _) =
      rw (e, hl, hn) (rw (drop-append before (cur ++ rest)) (take-append cur rest))

  scan-pieces :
      (rest before cur : Text) (i : ℕ) (s : Scan)
      → Spells before cur rest i s
      → let r = scan line separator rest i s in
        let (after, left) = pieces separator rest cur in
        (r.vec ≡ s.vec ++ after) × (substr line r.last r.item_length ≡ left)
  scan-pieces [] before cur i s h =
      unfold scan pieces in (sym (append-nil s.vec), substr-Spells before cur [] i s h)
  scan-pieces (c ∷ rest) before cur i s (e, hl, hn, hi) = elim (Bool-cases (c == separator)) [
    | inl q ↦
        let n : i + 1 ≡ length (before ++ (cur ++ c ∷ [])) =
          omega (arith, length-append before (cur ++ c ∷ []), length-append cur (c ∷ [])) in
        let (v, w) =
          scan-pieces rest (before ++ (cur ++ c ∷ [])) [] (i + 1) (close_item line separator i s) (
            rw (append_assoc before (cur ++ c ∷ []) rest, append_assoc cur (c ∷ []) rest) e,
            n,
            refl,
            omega (arith, n),
          ) in
        rw (scan_at_separator c rest i s q, pieces_at_separator separator c rest cur q)
          (
            v
                ∙ rw
                    (
                      append_assoc s.vec (substr line s.last s.item_length ∷ [])
                          (pieces separator rest []).0,
                      substr-Spells before cur (c ∷ rest) i s (e, hl, hn, hi),
                    )
                    refl,
            w,
          )
    | inr q ↦
        let (v, w) =
          scan-pieces rest before (cur ++ c ∷ []) (i + 1)
            (record s { item_length = s.item_length + 1 })
            (
              rw (append_assoc cur (c ∷ []) rest) e,
              hl,
              omega (arith, length-append cur (c ∷ [])),
              omega (arith, length-append cur (c ∷ [])),
            ) in
        rw (scan_at_other c rest i s q, pieces_at_other separator c rest cur q) (v, w)
  ]

  -- The loop over a line of items that hold no separator, each but the last with one behind it.
  scan_line_lem :
      (ts : List Text) (final : Text)
      → line ≡ terminated separator ts ++ final
      → All (Lacks separator) ts
      → Lacks separator final
      → let r = scan_line line separator in
        (r.vec ≡ ts) × (substr line r.last r.item_length ≡ final)
  unfolding scan_line
  scan_line_lem ts final e hs h =
      let (v, w) =
        scan-pieces line [] [] 0 (record { vec = []; last = 0; item_length = 0 })
          (refl, refl, refl, refl) in
      let p : pieces separator line [] ≡ (ts, final) =
        rw e (pieces-terminated separator ts final hs h) in
      (v ∙ ap (λ (q : List Text × Text). q.0) p, w ∙ ap (λ (q : List Text × Text). q.1) p)

-- The items of the line: the open one counts if it is not empty.
abbrev pub with_final : List Text → Text → List Text
with_final ts [] = ts
with_final ts (c ∷ t) = ts ++ (c ∷ t) ∷ []

terminated-last :
    (separator : ℕ) (front : Text) (ts : List Text)
    → let line = front ++ separator ∷ terminated separator ts in
      get_or line (length line - 1) 0 ≡ separator
terminated-last separator front [] = last-append front separator [] 0
terminated-last separator front (t ∷ ts) =
    subst (λ (l : Text). get_or l (length l - 1) 0 ≡ separator)
      (append_assoc front (separator ∷ t) (separator ∷ terminated separator ts))
      (terminated-last separator (front ++ separator ∷ t) ts)

-- Without a final item, the line is empty or ends with the separator.
no_final :
    (separator : ℕ) (ts : List Text) (items : List Text)
    → let line = terminated separator ts in
      (if leb 1 (length line) && not (get_or line (length line - 1) 0 == separator)
        then items
        else ts)
      ≡ ts
no_final separator [] items = refl
no_final separator (t ∷ ts) items =
    rw (terminated-last separator t ts, eq→== separator separator refl) (ground arith)

pub finish_lem :
    (separator : ℕ) (ts : List Text) (final : Text)
    → All (Lacks separator) ts
    → Lacks separator final
    → let line = terminated separator ts ++ final in
      finish line separator (leb 1 (length line)) (scan_line line separator) ≡ with_final ts final
unfolding finish
finish_lem separator ts [] hs h =
    let (v, w) = scan_line_lem (terminated separator ts ++ []) separator ts [] refl hs h in
    rw (v, append-nil (terminated separator ts)) (no_final separator ts _)
finish_lem separator ts (c ∷ t) hs h =
    let line = terminated separator ts ++ c ∷ t in
    let (v, w) = scan_line_lem line separator ts (c ∷ t) refl hs h in
    let l : get_or line (length line - 1) 0 ≢ separator =
      subst (λ (x : ℕ). x ≢ separator) (sym (last-append (terminated separator ts) c t 0))
        (All-last (λ x. x ≢ separator) c t 0 h) in
    let n : 1 ≤ length line = omega (arith, length-append (terminated separator ts) (c ∷ t)) in
    rw (v, w, ne→== (get_or line (length line - 1) 0) separator l, le→leb 1 (length line) n) refl
