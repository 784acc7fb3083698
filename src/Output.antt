-- ===== src/Output.antt =====
-- `_TailBuffer` and `ProcessManager._drain` of agent_relay_runtime/process_manager.py: the last part of
-- what a process has written. Texts are lists of code points.
use agent_relay_auto.Prelude.{
  ℕ, zero, suc, ◌+◌, ◌-◌, ◌≤◌, ◌≡◌, refl, sym, ap, ◌∙◌, List, [], ◌∷◌, ◌++◌, arith, nat_eq,
  if◌then◌else◌,
}
use agent_relay_auto.Runs.Rotate.{length, length-append}

unfoldable pub drop : ℕ → List ℕ → List ℕ
drop zero xs = xs
drop (suc n) [] = []
drop (suc n) (x ∷ xs) = drop n xs

-- `s[-n:]`, which is all of `s` for 0
unfoldable pub last_part : ℕ → List ℕ → List ℕ
unfolding drop length
last_part n xs = if nat_eq n 0 then xs else drop (length xs - n) xs

-- `_TailBuffer`
pub record TailBuffer : Type 0 where
  pub limit : ℕ
  pub content : List ℕ

unfoldable pub append : List ℕ → TailBuffer → TailBuffer
unfolding last_part
append value b = record b { content = last_part b.limit (b.content ++ value) }

-- `_drain`: the reads of a stream, which ends with an empty one
unfoldable pub drain : List (List ℕ) → TailBuffer → TailBuffer
unfolding append
drain [] b = b
drain ([] ∷ chunks) b = b
drain ((c ∷ cs) ∷ chunks) b = drain chunks (append (c ∷ cs) b)

-- what a stream has written before its first empty read
unfoldable pub written : List (List ℕ) → List ℕ
written [] = []
written ([] ∷ chunks) = []
written ((c ∷ cs) ∷ chunks) = (c ∷ cs) ++ written chunks

append_assoc : (xs ys zs : List ℕ) → (xs ++ ys) ++ zs ≡ xs ++ (ys ++ zs)
append_assoc [] ys zs = refl
append_assoc (x ∷ xs) ys zs = ap (λ l. x ∷ l) (append_assoc xs ys zs)

append_nil : (xs : List ℕ) → xs ++ [] ≡ xs
append_nil [] = refl
append_nil (x ∷ xs) = ap (λ l. x ∷ l) (append_nil xs)

length-drop : (n : ℕ) (xs : List ℕ) → length (drop n xs) ≡ length xs - n
unfolding drop length
length-drop zero xs = omega arith
length-drop (suc n) [] = omega arith
length-drop (suc n) (x ∷ xs) = let rest = length-drop n xs in omega arith

drop-append : (n : ℕ) (xs ys : List ℕ) → n ≤ length xs → drop n (xs ++ ys) ≡ drop n xs ++ ys
unfolding drop length
drop-append zero xs ys h = refl
drop-append (suc n) [] ys h = absurd (omega arith)
drop-append (suc n) (x ∷ xs) ys h = drop-append n xs ys (omega arith)

drop_nil : (n : ℕ) → drop n [] ≡ []
unfolding drop
drop_nil zero = refl
drop_nil (suc n) = refl

drop-drop : (n m : ℕ) (xs : List ℕ) → drop n (drop m xs) ≡ drop (m + n) xs
unfolding drop
drop-drop n zero xs = ap (λ k. drop k xs) (omega arith)
drop-drop n (suc m) [] = drop_nil n ∙ sym (drop_nil (suc m + n))
drop-drop n (suc m) (x ∷ xs) =
    let next : suc m + n ≡ suc (m + n) = omega arith in
    drop-drop n m xs ∙ sym (ap (λ k. drop k (x ∷ xs)) next)

last_part-suc : (n : ℕ) (xs : List ℕ) → last_part (suc n) xs ≡ drop (length xs - suc n) xs
unfolding last_part
last_part-suc n xs = ground arith

last_part-append :
    (n : ℕ) (xs ys : List ℕ)
    → last_part (suc n) (last_part (suc n) xs ++ ys) ≡ last_part (suc n) (xs ++ ys)
last_part-append n xs ys =
    let a = length xs - suc n in
    let count : a + (length (drop a xs ++ ys) - suc n) ≡ length (xs ++ ys) - suc n =
      rw (length-append (drop a xs) ys, length-drop a xs, length-append xs ys) (omega arith) in
    rw (last_part-suc n xs, last_part-suc n (drop a xs ++ ys), last_part-suc n (xs ++ ys))
      (ap (drop (length (drop a xs ++ ys) - suc n)) (sym (drop-append a xs ys (omega arith)))
        ∙ (drop-drop (length (drop a xs ++ ys) - suc n) a (xs ++ ys)
            ∙ ap (λ k. drop k (xs ++ ys)) count))

-- A drained buffer shows the last part of what it showed before with all that the stream wrote,
-- however the stream was cut into reads.
pub drain_refines :
    (limit : ℕ) (old : List ℕ) (chunks : List (List ℕ))
    → (drain chunks (record { limit = suc limit; content = last_part (suc limit) old })).content
      ≡ last_part (suc limit) (old ++ written chunks)
unfolding drain append written
drain_refines limit old [] = rw (append_nil old) refl
drain_refines limit old ([] ∷ chunks) = rw (append_nil old) refl
drain_refines limit old ((c ∷ cs) ∷ chunks) =
    let state : List ℕ → TailBuffer = λ l. record { limit = suc limit; content = l } in
    ap (λ l. (drain chunks (state l)).content) (last_part-append limit old (c ∷ cs))
    ∙ (drain_refines limit (old ++ (c ∷ cs)) chunks
        ∙ ap (last_part (suc limit)) (append_assoc old (c ∷ cs) (written chunks)))

-- It never holds more than its limit.
pub drain_bound :
    (limit : ℕ) (chunks : List (List ℕ)) (b : TailBuffer)
    → b.limit ≡ suc limit
    → length b.content ≤ suc limit
    → length (drain chunks b).content ≤ suc limit
unfolding drain append
drain_bound limit [] b e h = h
drain_bound limit ([] ∷ chunks) b e h = h
drain_bound limit ((c ∷ cs) ∷ chunks) b e h =
    let next = b.content ++ (c ∷ cs) in
    drain_bound limit chunks (append (c ∷ cs) b) e
      (rw (e, last_part-suc limit next, length-drop (length next - suc limit) next) (omega arith))
