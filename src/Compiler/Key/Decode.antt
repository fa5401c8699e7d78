-- ===== src/Compiler/Key/Decode.antt =====
-- What the flags chunk of the cache key says about the invocation.
use hpcc.Prelude.{ℕ, ◌≡◌, refl, sym, ap, ◌∙◌, ◌≢◌, List, [], ◌∷◌, ◌++◌, Bytes, arith, All}
use mathlib.Core.Path.{ap₂}
use mathlib.Core.List.{append_assoc}
use hpcc.Compiler.Key.{entries, write_list, write_kv}

-- No byte of the text is `b`.
abbrev pub Free : ℕ → Bytes → Type 0
Free b [] = Unit {0}
Free b (c ∷ s) = (c ≢ b) × Free b s

abbrev pub IsItem : Bytes → Type 0
IsItem s = Free 0 s × (s ≢ [])

-- A text up to its first `b` is read back, whatever follows.
pub split_at :
    (b : ℕ) (s t x y : Bytes) → Free b s → Free b t → s ++ b ∷ x ≡ t ++ b ∷ y → (s ≡ t) × (x ≡ y)
split_at b [] [] x y fs ft e = (refl, cc)
split_at b [] (d ∷ t) x y fs ft e = ground (arith, ft.0)
split_at b (c ∷ s) [] x y fs ft e = ground (arith, fs.0)
split_at b (c ∷ s) (d ∷ t) x y fs ft e =
    let tails : s ++ b ∷ x ≡ t ++ b ∷ y = cc in
    let heads : c ≡ d = cc in
    let ih = split_at b s t x y fs.1 ft.1 tails in (ap₂ ◌∷◌ heads ih.0, ih.1)

-- A common head is dropped.
pub append-cancel_left : (p x y : Bytes) → p ++ x ≡ p ++ y → x ≡ y
append-cancel_left [] x y e = e
append-cancel_left (c ∷ p) x y e = append-cancel_left p x y (cc)

entries_rest :
    (item : Bytes) (items : List Bytes) (r : Bytes)
    → entries (item ∷ items) ++ r ≡ item ++ (0 ∷ (entries items ++ r))
entries_rest item items r = append_assoc item (0 ∷ entries items) r

not_end :
    (item : Bytes) (items : List Bytes) (r q : Bytes)
    → IsItem item
    → 0 ∷ r ≢ entries (item ∷ items) ++ q
not_end [] items r q i e = i.1 refl
not_end (c ∷ s) items r q i e = i.0.0 (cc)

-- A list of items is read back, whatever follows.
entries_inv :
    (xs ys : List Bytes) (r q : Bytes)
    → All IsItem xs
    → All IsItem ys
    → entries xs ++ r ≡ entries ys ++ q
    → (xs ≡ ys) × (r ≡ q)
entries_inv [] [] r q hx hy e = (refl, cc)
entries_inv [] (y ∷ ys) r q hx hy e = absurd (not_end y ys r q hy.0 e)
entries_inv (x ∷ xs) [] r q hx hy e = absurd (not_end x xs q r hx.0 (sym e))
entries_inv (x ∷ xs) (y ∷ ys) r q hx hy e =
    let first =
      split_at 0 x y (entries xs ++ r) (entries ys ++ q) hx.0.0 hy.0.0
        (sym (entries_rest x xs r) ∙ e ∙ entries_rest y ys q) in
    let rest = entries_inv xs ys r q hx.1 hy.1 first.1 in (ap₂ ◌∷◌ first.0 rest.0, rest.1)

pub write_list_inv :
    (tag : Bytes) (xs ys : List Bytes) (r q : Bytes)
    → All IsItem xs
    → All IsItem ys
    → write_list tag xs ++ r ≡ write_list tag ys ++ q
    → (xs ≡ ys) × (r ≡ q)
unfolding write_list
write_list_inv tag xs ys r q hx hy e = entries_inv xs ys r q hx hy (
    append-cancel_left (tag ++ 0 ∷ []) _ _ (
      append_assoc tag (0 ∷ []) (entries xs ++ r)
      ∙ sym (append_assoc tag (0 ∷ entries xs) r)
      ∙ e
      ∙ append_assoc tag (0 ∷ entries ys) q
      ∙ sym (append_assoc tag (0 ∷ []) (entries ys ++ q))))

kv_rest : (tag v r : Bytes) → write_kv tag v ++ r ≡ tag ++ (b'=' ∷ (v ++ (0 ∷ r)))
unfolding write_kv
kv_rest tag v r =
    append_assoc tag (b'=' ∷ (v ++ 0 ∷ [])) r
    ∙ ap (λ (t : Bytes). tag ++ (b'=' ∷ t)) (append_assoc v (0 ∷ []) r)

pub write_kv_inv :
    (tag v w r q : Bytes)
    → Free 0 v
    → Free 0 w
    → write_kv tag v ++ r ≡ write_kv tag w ++ q
    → (v ≡ w) × (r ≡ q)
write_kv_inv tag v w r q hv hw e =
    let values : b'=' ∷ (v ++ (0 ∷ r)) ≡ b'=' ∷ (w ++ (0 ∷ q)) =
      append-cancel_left tag _ _ (sym (kv_rest tag v r) ∙ e ∙ kv_rest tag w q) in
    split_at 0 v w r q hv hw (cc)
