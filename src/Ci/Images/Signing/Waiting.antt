-- ===== src/Ci/Images/Signing/Waiting.antt =====
-- How often the status of a signing is asked for, and what is returned.
use base_backend.Prelude.{ℕ, zero, suc, ◌+◌, ◌-◌, ◌≤◌, String, List, [], ◌∷◌, string_eq, arith}
use base_backend.Errors.{Result, ok, err}
use base_backend.Exec.{Exec, lift, and_then, ◌>>=◌}
use base_backend.Ci.Json.{Json}
use base_backend.Ci.Images.{Event, called, slept, Tools, aws_json}
use base_backend.Ci.Images.Signing.{
  Verdict, complete, pending, verdict_of, wait_if_left, ask, go_on, wait_for_signature,
}

abbrev pub calls : List Event → ℕ
calls [] = 0
calls (called arguments ∷ events) = suc (calls events)
calls (slept ∷ events) = calls events

abbrev pub waits : List Event → ℕ
waits [] = 0
waits (called arguments ∷ events) = waits events
waits (slept ∷ events) = suc (waits events)

-- At most `c` more calls and `k` more waits.
abbrev pub IsWithin : ℕ → ℕ → List Event → List Event → Type 0
IsWithin c k before after = (calls after ≤ c + calls before) × (waits after ≤ k + waits before)

module _ {ℓ κ} {A : Type ℓ} {B : Type κ} where
  IsWithin-and_then :
      (c k : ℕ) (events : List Event) (f : A → Exec (List Event) B) (r : Result A × List Event)
      (c' k' n w : ℕ)
      → IsWithin c k events r.1
      → ((a : A) (s : List Event) → IsWithin c' k' s (f a s).1)
      → c + c' ≤ n
      → k + k' ≤ w
      → IsWithin n w events (and_then r f).1
  IsWithin-and_then c k events f (ok a, s) c' k' n w h g p q =
      let (x, y) = h in
      let (u, v) = g a s in
      let after : IsWithin n w events (f a s).1 = (omega arith, omega arith) in after
  IsWithin-and_then c k events f (err e, s) c' k' n w h g p q =
      let (x, y) = h in (omega arith, omega arith)

IsWithin-wait : (left : ℕ) (s : List Event) → IsWithin 0 1 s (wait_if_left left s).1
IsWithin-wait zero s = (omega arith, omega arith)
IsWithin-wait (suc left) s = (omega arith, omega arith)

module _ (t : Tools) (repository digest arn : String) where
  IsWithin-ask : (s : List Event) → IsWithin 1 0 s (ask t repository digest arn s).1
  unfolding aws_json
  IsWithin-ask s = (omega arith, omega arith)

  IsWithin-go_on :
      (left : ℕ) (rest : Exec (List Event) Json) (verdict : Verdict)
      → ((s : List Event) → IsWithin left (left - 1) s (rest s).1)
      → (s : List Event)
      → IsWithin left left s (go_on t repository digest arn left rest verdict s).1
  IsWithin-go_on left rest (complete status) h s = (omega arith, omega arith)
  IsWithin-go_on zero rest pending h s = let (x, y) = h s in (x, omega arith)
  IsWithin-go_on (suc left) rest pending h s =
      IsWithin-and_then 0 1 s (λ _. rest) (wait_if_left (suc left) s) (suc left) (suc left - 1)
        (suc left) (suc left) (IsWithin-wait (suc left) s) (λ _. h) (omega arith) (omega arith)

  -- The status of a signing is asked for at most `attempts` times, with fewer waits than that, whether
  -- the wait ends with a status or with an error.
  pub wait_for_signature-IsWithin :
      (attempts : ℕ) (events : List Event)
      → IsWithin attempts
          (attempts - 1)
          events
          (wait_for_signature t repository digest arn attempts events).1
  unfolding wait_for_signature
  wait_for_signature-IsWithin zero events = (omega arith, omega arith)
  wait_for_signature-IsWithin (suc left) events =
      let rest = wait_for_signature t repository digest arn left in
      let next = go_on t repository digest arn left rest in
      IsWithin-and_then 1 0 events (λ result. lift (verdict_of arn result) >>= next)
        (ask t repository digest arn events) left left (suc left) (suc left - 1)
        (IsWithin-ask events)
        (λ result s.
          IsWithin-and_then 0 0 s next (lift (verdict_of arn result) s) left left left left
            (omega arith, omega arith)
            (λ verdict. IsWithin-go_on left rest verdict (wait_for_signature-IsWithin left))
            (omega arith) (omega arith))
        (omega arith) (omega arith)
