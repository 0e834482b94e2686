-- ===== src/Integration/Store/Awaiting.antt =====
-- How long `await` waits.
use p2psc.Prelude.{
  ℕ, ◌+◌, ◌-◌, ◌≤◌, ◌<◌, ◌⊎◌, ◌≡◌, refl, arith, none, List, [], ◌∷◌, Bytes, All, ltb, if◌then◌else◌,
  Bool-cases, inl, inr, ap, ◌∙◌, true, false,
}
use p2psc.Integration.Store.{Wake, returned, waiting, get, on_wake, await_loop, await}

-- The sum of the times from the start of the call to each of the wakes.
abbrev pub spent : ℕ → List Wake → ℕ
spent start_ms [] = 0
spent start_ms (w ∷ wakes) = (w.now_ms - start_ms) + spent start_ms wakes

-- The wake comes after the start, and does not find the key.
abbrev pub IsIdle : Bytes → ℕ → Wake → Type 0
IsIdle id start_ms w = (get id w.store ≡ none) × (start_ms ≤ w.now_ms)

-- What a wake that does not find the key leaves.
await_loop-miss :
    (id : Bytes) (start_ms wait_ms : ℕ) (w : Wake) (wakes : List Wake)
    → get id w.store ≡ none
    → await_loop id start_ms wait_ms (w ∷ wakes) ≡ (
        if ltb 0 ((wait_ms + start_ms) - w.now_ms)
        then await_loop id start_ms ((wait_ms + start_ms) - w.now_ms) wakes
        else returned none)
unfolding await_loop
await_loop-miss id start_ms wait_ms w wakes missing =
    ap
      (λ o.
        on_wake o ((wait_ms + start_ms) - w.now_ms)
          (await_loop id start_ms ((wait_ms + start_ms) - w.now_ms) wakes))
      missing

ltb-true : (a b : ℕ) → a < b → ltb a b ≡ true
ltb-true a b h = ground arith

ltb-false : (a b : ℕ) → b ≤ a → ltb a b ≡ false
ltb-false a b h = ground arith

await_loop-waits :
    (id : Bytes) (start_ms wait_ms : ℕ) (wakes : List Wake)
    → All (IsIdle id start_ms) wakes
    → 0 < wait_ms
    → ((spent start_ms wakes < wait_ms) × (await_loop id start_ms wait_ms wakes ≡ waiting))
      ⊎ ((wait_ms ≤ spent start_ms wakes) × (await_loop id start_ms wait_ms wakes ≡ returned none))
unfolding await_loop
await_loop-waits id start_ms wait_ms [] idle h = inl (h, refl)
await_loop-waits id start_ms wait_ms (w ∷ wakes) ((missing, later), idle) h =
    let left = (wait_ms + start_ms) - w.now_ms in
    let step = await_loop-miss id start_ms wait_ms w wakes missing in
    elim (Bool-cases (ltb 0 left)) [
      | inl more ↦ elim (await_loop-waits id start_ms left wakes idle (ground (arith, more))) [
        | inl (within, e) ↦ inl (omega arith, step ∙ rw more e)
        | inr (over, e) ↦ inr (omega arith, step ∙ rw more e)
      ]
      | inr less ↦ inr (ground (arith, less), step ∙ rw less refl)
    ]

-- Of the wakes that do not find the key, each takes the whole time since the start of the call from
-- what is left, and the call gives up once these times add up to the limit.
pub await-gives_up :
    (id : Bytes) (ms start_ms : ℕ) (wakes : List Wake)
    → All (IsIdle id start_ms) wakes
    → 0 < ms
    → await id ms start_ms wakes
      ≡ (if ltb (spent start_ms wakes) ms then waiting else returned none)
unfolding await
await-gives_up id ms start_ms wakes idle h = elim (await_loop-waits id start_ms ms wakes idle h) [
  | inl (within, e) ↦ rw (ltb-true (spent start_ms wakes) ms within) e
  | inr (over, e) ↦ rw (ltb-false (spent start_ms wakes) ms over) e
]
