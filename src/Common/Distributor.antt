-- ===== src/Common/Distributor.antt =====
-- plugins/common/distributor/distributor.go: events dealt to channels in turn.
use neptunus.Base.{
  ℕ, zero, suc, ◌+◌, ◌-◌, ◌%◌, ◌<◌, ◌≡◌, refl, String, some, List, [], ◌∷◌, get_elem?, ltb, ltb→lt,
  nat_beq, if◌then◌else◌, Bool-cases, inl, inr, Result, ok, err, arith, ap, ◌∙◌,
}
use mathlib.Core.Option

mod_wrap : (n i : ℕ) → 0 < n → (n + i) % n ≡ i % n
mod_wrap n i h = grind arith

next_cursor :
    (n c i : ℕ) → c < n → ((if ltb (n - 1) (c + 1) then 0 else c + 1) + i) % n ≡ (c + suc i) % n
next_cursor n c i h = elim (Bool-cases (ltb (n - 1) (c + 1))) [
  | inl wrap ↦
      let e : c + suc i ≡ n + (0 + i) = omega (arith, ltb→lt (n - 1) (c + 1) wrap) in
      rw (wrap, e, mod_wrap n (0 + i) (omega arith))
  | inr on ↦ rw on (ap (λ k. k % n) (omega arith))
]

module _ {ℓ} {T : Type ℓ} where
  -- The loop of `Run` over `n` channels: each event with the index of the channel it is sent to.
  unfoldable pub deal : ℕ → ℕ → List T → List (ℕ × T)
  deal n cursor [] = []
  deal n cursor (e ∷ es) =
      let next = cursor + 1 in (cursor, e) ∷ deal n (if ltb (n - 1) next then 0 else next) es

  -- `Run`.
  unfoldable pub run : ℕ → List T → Result String (List (ℕ × T))
  unfolding deal
  run n es = if nat_beq n 0 then err "distributor started with no outputs" else ok (deal n 0 es)

  deal-get_elem? :
      (n c : ℕ) (es : List T) (i : ℕ)
      → c < n
      → get_elem? (deal n c es) i ≡ Option.map (λ e. ((c + i) % n, e)) (get_elem? es i)
  unfolding deal
  deal-get_elem? n c [] i h = refl
  deal-get_elem? n c (e ∷ es) zero h = ap (λ k. some (k, e)) (grind arith)
  deal-get_elem? n c (e ∷ es) (suc i) h =
      deal-get_elem? n (if ltb (n - 1) (c + 1) then 0 else c + 1) es i (ground arith)
      ∙ rw (next_cursor n c i h)

  -- With n > 0 outputs `Run` does not panic, and deals the events in turn: the i-th event, counted
  -- from 0, goes to the output i % n, and no other is sent.
  run-turns :
      (n : ℕ) (es : List T)
      → 0 < n
      → (dealt : List (ℕ × T)) × (run n es ≡ ok dealt)
        × ((i : ℕ) → get_elem? dealt i ≡ Option.map (λ e. (i % n, e)) (get_elem? es i))
  unfolding run
  run-turns n es h = (
    deal n 0 es,
    ground arith,
    λ i.
        deal-get_elem? n 0 es i h
        ∙ ap (λ k. Option.map (λ e. (k % n, e)) (get_elem? es i)) (omega arith),
  )
