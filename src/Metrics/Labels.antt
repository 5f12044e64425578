-- ===== src/Metrics/Labels.antt =====
-- The label text of the Prometheus format: what a reader of the text gets back.
use feature_flags_control_pl.Shared.{
  ℕ, ◌-◌, ◌≡◌, refl, sym, ap, ◌∙◌, inl, inr, Option-cases, Bool, true, false, Option, none, some,
  List, [], ◌∷◌, ◌++◌, Str, arith, length, take, ◌==◌, if◌then◌else◌, is_empty, length-append,
}
use mathlib.Core.List.{append_assoc}
use mathlib.Core.Option
use feature_flags_control_pl.Metrics.{
  join, replace_byte, escape_label, label_pair, label_parts, label_str, insert_label,
}

-- The three passes as one: each byte goes to its own escape.
escape_each : Str → Str
escape_each [] = []
escape_each (a ∷ s) =
    let rest = escape_each s in
    if a == 92
    then 92 ∷ 92 ∷ rest
    else if a == 34
    then 92 ∷ 34 ∷ rest
    else if a == 10
    then 92 ∷ 110 ∷ rest
    else a ∷ rest

escape_label-each : (s : Str) → escape_label s ≡ escape_each s
unfolding escape_label replace_byte escape_each
escape_label-each [] = refl
escape_label-each (a ∷ s) = ground (arith, escape_label-each s)

-- The byte that an escape stands for.
pub decode : ℕ → ℕ
decode c = if c == 110 then 10 else c

-- A reader of a quoted value: up to the first quote that is not escaped, with the text behind it.
pub read_value : Bool → Str → Option (Str × Str)
read_value e [] = none
read_value true (a ∷ s) = Option.map (λ r. (decode a ∷ r.0, r.1)) (read_value false s)
read_value false (a ∷ s) =
    let plain = Option.map (λ r. (a ∷ r.0, r.1)) (read_value false s) in
    let escaped = read_value true s in
    if a == 34 then some ([], s) else if a == 92 then escaped else plain

read_value-each : (v rest : Str) → read_value false (escape_each v ++ 34 ∷ rest) ≡ some (v, rest)
unfolding read_value escape_each decode
read_value-each [] rest = refl
read_value-each (a ∷ v) rest = ground (arith, read_value-each v rest)

-- A reader of quoted values gets back every label value, whatever its bytes, and stops at the quote
-- behind it, whatever follows.
pub read_value-escape_label :
    (v rest : Str) → read_value false (escape_label v ++ 34 ∷ rest) ≡ some (v, rest)
read_value-escape_label v rest = rw escape_label-each (read_value-each v rest)

join-snoc :
    (sep p : Str) (ps : List Str) (q : Str)
    → join sep ((p ∷ ps) ++ q ∷ []) ≡ join sep (p ∷ ps) ++ (sep ++ q)
unfolding join
join-snoc sep p [] q = refl
join-snoc sep p (p2 ∷ ps) q =
    ap (λ t. p ++ (sep ++ t)) (join-snoc sep p2 ps q)
    ∙ (ap (λ t. p ++ t) (sym (append_assoc sep (join sep (p2 ∷ ps)) (sep ++ q)))
        ∙ sym (append_assoc p (sep ++ join sep (p2 ∷ ps)) (sep ++ q)))

label_parts-snoc :
    (ns vs : List Str) (k v : Str)
    → length ns ≡ length vs
    → label_parts (ns ++ k ∷ []) (vs ++ v ∷ [])
      ≡ Option.map (λ ps. ps ++ label_pair k v ∷ []) (label_parts ns vs)
unfolding label_parts
label_parts-snoc [] [] k v h = refl
label_parts-snoc (n ∷ ns) (w ∷ vs) k v h = ground (arith, label_parts-snoc ns vs k v)
label_parts-snoc [] (w ∷ vs) k v h = absurd (omega arith)
label_parts-snoc (n ∷ ns) [] k v h = absurd (omega arith)

-- `label_parts` panics exactly when there are more names than values.
label_parts_total :
    (ns vs : List Str) → length ns ≡ length vs → (ps : List Str) × (label_parts ns vs ≡ some ps)
unfolding label_parts
label_parts_total [] vs h = ([], refl)
label_parts_total (n ∷ ns) [] h = absurd (omega arith)
label_parts_total (n ∷ ns) (v ∷ vs) h =
    let (ps, e) = label_parts_total ns vs (omega arith) in (label_pair n v ∷ ps, rw e)

take_front : (s t : Str) → take (length s) (s ++ t) ≡ s
take_front [] t = refl
take_front (a ∷ s) t = ap (λ r. a ∷ r) (take_front s t)

-- Dropping the last byte of a text that ends in a closing brace.
take-all_but_last : (s : Str) (c : ℕ) → take (length (s ++ c ∷ []) - 1) (s ++ c ∷ []) ≡ s
take-all_but_last s c =
    let e : length (s ++ c ∷ []) - 1 ≡ length s = omega (arith, length-append {0} s (c ∷ [])) in
    rw e (take_front s (c ∷ []))

label_parts-cons :
    (n : Str) (ns vs : List Str) {ps : List Str}
    → label_parts (n ∷ ns) vs ≡ some ps
    → (q : Str) × (qs : List Str) × (ps ≡ q ∷ qs)
unfolding label_parts
label_parts-cons n ns [] e = cc
label_parts-cons n ns (v ∷ vs) e = elim (Option-cases (label_parts ns vs)) [
  | inl bad ↦ absurd (ground arith)
  | inr (qs, good) ↦ (label_pair n v, qs, ground arith)
]

abbrev braces : List Str → Str
braces parts = 123 ∷ (join (44 ∷ []) parts ++ 125 ∷ [])

braces-snoc :
    (q : Str) (qs : List Str) (k v : Str)
    → escape_label v ≡ v
    → braces ((q ∷ qs) ++ label_pair k v ∷ []) ≡ insert_label (braces (q ∷ qs)) k v
unfolding insert_label is_empty label_pair
braces-snoc q qs k v plain =
    rw (plain, join-snoc (44 ∷ []) q qs (k ++ (61 ∷ 34 ∷ (v ++ 34 ∷ []))))
      (rw (take-all_but_last (123 ∷ join (44 ∷ []) (q ∷ qs)) 125) (
        ap (λ t. 123 ∷ t)
          (append_assoc (join (44 ∷ []) (q ∷ qs)) (44 ∷ (k ++ (61 ∷ 34 ∷ (v ++ 34 ∷ []))))
            (125 ∷ []))))

label_str-braces :
    (n : Str) (ns vs : List Str) {ps : List Str}
    → label_parts (n ∷ ns) vs ≡ some ps
    → label_str (n ∷ ns) vs ≡ some (braces ps)
unfolding label_str
label_str-braces n ns vs e = ground arith

-- `insertLabel` on the text of a label set gives the text of that set with the new label at the end,
-- where the new value needs no escape.
pub insert_label-label_str :
    (names vals : List Str) (k v : Str)
    → length names ≡ length vals
    → escape_label v ≡ v
    → (t : Str) × (label_str names vals ≡ some t)
      × (label_str (names ++ k ∷ []) (vals ++ v ∷ []) ≡ some (insert_label t k v))
unfolding label_str insert_label is_empty
insert_label-label_str [] [] k v h plain =
    ([], refl, unfold label_parts label_pair join in rw plain)
insert_label-label_str [] (w ∷ vals) k v h plain = absurd (omega arith)
insert_label-label_str (n ∷ names) vals k v h plain =
    let (ps, good) = label_parts_total (n ∷ names) vals h in
    let (q, qs, shape) = label_parts-cons n names vals good in
    (
      braces (q ∷ qs),
      label_str-braces n names vals (good ∙ ap some shape),
      label_str-braces n (names ++ k ∷ []) (vals ++ v ∷ [])
            (rw (label_parts-snoc (n ∷ names) vals k v h) (rw (good, shape)))
          ∙ ap some (braces-snoc q qs k v plain),
    )
