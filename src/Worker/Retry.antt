-- ===== src/Worker/Retry.antt =====
-- `Generate`: it always has a result, and how often it calls the worker.
use text.Mathlib.Text.{◌==◌ as str_eq}
use text.Mathlib.TextEquality.{eq_iff}
use high_performance_llm_gat.Prelude.{
  ℕ, zero, suc, ◌+◌, ◌≤◌, ◌<◌, ◌≡◌, ◌≢◌, refl, ap, ◌-◌, ◌∙◌, String, Option, none, some, Bool, true,
  false, not, ◌||◌, ◌==◌, arith, Bool-cases, if_both, inl, inr,
}
use high_performance_llm_gat.Prelude.Int.{ℤ, pos}
use high_performance_llm_gat.Prelude.Text.{◌++ₛ◌}
use high_performance_llm_gat.Worker.{
  Transport, Client, Request, Generated, WorkerError, Settings, Reply, ok, fault, cancelled, done,
  failed, new_client, generate_once, retryable, retry, generate, next_backoff, default_model,
}

-- Go's `nil, nil`, which a caller would take for a response.
abbrev pub HasResult : {F : Type 0} → Option (Generated F) → Type 0
HasResult none = ⊥
HasResult (some g) = Unit

module _ {F I W : Type 0} (t : Transport F I W) (c : Client) (req : Request I) where
  -- How one round of the loop goes: it ends with a result, after the call or after a wait that was
  -- cut short, or it goes on after a full wait.
  data Round (n : ℕ) (b : ℤ) (w : W) (out : Option (Generated F) × W) : Type 0 where
    ends : (g : Generated F) → out ≡ (some g, (generate_once t c req w).1) → Round n b w out
    cut :
        (g : Generated F)
        → out ≡ (some g, (t.sleep b (generate_once t c req w).1).1)
        → Round n b w out
    goes_on :
        (e : WorkerError)
        → n ≢ 0
        → out ≡ retry t c req n (some e) (next_backoff b) (t.sleep b (generate_once t c req w).1).1
        → Round n b w out

  retry-Round :
      (n : ℕ) (last : Option WorkerError) (b : ℤ) (w : W)
      → Round n b w (retry t c req (suc n) last b w)
  unfolding retry
  retry-Round n last b w = go (generate_once t c req w).0 refl
    where
      waits :
          (e : WorkerError) (fired : Bool)
          → (generate_once t c req w).0 ≡ failed e
          → (not (retryable e) || n == 0) ≡ false
          → (t.sleep b (generate_once t c req w).1).0 ≡ fired
          → Round n b w (retry t c req (suc n) last b w)
      waits e true failure more slept =
          goes_on e (ground arith) (rw (failure, retry) (rw (more, retry) (rw (slept, retry))))
      waits e false failure more slept =
          cut (failed cancelled) (rw (failure, retry) (rw (more, retry) (rw (slept, retry))))

      go :
          (g : Generated F)
          → (generate_once t c req w).0 ≡ g
          → Round n b w (retry t c req (suc n) last b w)
      go (done resp) e = ends (done resp) (rw (e, retry))
      go (failed x) e = elim (Bool-cases (not (retryable x) || n == 0)) [
        | inl stop ↦ ends (failed x) (rw (e, retry) (rw (stop, retry)))
        | inr more ↦ waits x _ e more refl
      ]

  module _ (calls : W → ℕ)
      (one_call : (url payload : String) (w : W) → calls (t.exchange url payload w).1 ≤ calls w + 1)
      (no_call : (b : ℤ) (w : W) → calls (t.sleep b w).1 ≤ calls w) where
    generate_once-calls : (w : W) → calls (generate_once t c req w).1 ≤ calls w + 1
    unfolding generate_once
    generate_once-calls w = go (t.encode req) refl
      where
        go : (r : Reply String) → t.encode req ≡ r → calls (generate_once t c req w).1 ≤ calls w + 1
        go (fault x) e = rw (e, generate_once) (omega arith)
        go (ok payload) e =
            rw (e, generate_once)
              (ground (arith, one_call (c.base_url ++ₛ "/embeddings") payload w))

    -- A result is there, and `n` more calls have been made at most.
    abbrev Within : ℕ → W → Option (Generated F) × W → Type 0
    Within n w out = HasResult out.0 × (calls out.1 ≤ calls w + n)

    retry-Within :
        (n : ℕ) (last : Option WorkerError) (b : ℤ) (w : W)
        → (n ≡ 0 → last ≢ none)
        → Within n w (retry t c req n last b w)
    unfolding retry
    retry-Within zero none b w h = absurd (h refl refl)
    retry-Within zero (some e) b w h = (tt, omega arith)
    retry-Within (suc n) last b w h =
        close (retry t c req (suc n) last b w) (retry-Round n last b w)
          (λ e. retry-Within n (some e) (next_backoff b) (t.sleep b (generate_once t c req w).1).1)
      where
        w1 : W
        w1 = (generate_once t c req w).1

        close :
            (out : Option (Generated F) × W)
            → Round n b w out
            → ((e : WorkerError)
                → (n ≡ 0 → some e ≢ none)
                → Within n
                    (t.sleep b w1).1
                    (retry t c req n (some e) (next_backoff b) (t.sleep b w1).1))
            → Within (suc n) w out
        close out (ends g e) ih = rw e (tt, omega (arith, generate_once-calls w))
        close out (cut g e) ih = rw e (tt, omega (arith, generate_once-calls w, no_call b w1))
        close out (goes_on x ne e) ih =
            let (has, bound) = ih x (λ z. absurd (ne z)) in
            rw e (has, omega (arith, generate_once-calls w, no_call b w1, bound))

new_client-retry_max : (cfg : Settings) → 0 < (new_client cfg).retry_max
unfolding new_client
new_client-retry_max cfg = ground arith

-- Let `calls` count the requests sent to the worker: sending one adds one at most, and waiting adds
-- none. On every configuration `Generate` returns a response or an error, never neither, and sends
-- no more requests than the configured attempts.
pub generate-bounded :
    {F I W : Type 0} (t : Transport F I W) (cfg : Settings) (req : Request I) (w : W)
    (calls : W → ℕ)
    → ((url payload : String) (w : W) → calls (t.exchange url payload w).1 ≤ calls w + 1)
    → ((b : ℤ) (w : W) → calls (t.sleep b w).1 ≤ calls w)
    → HasResult (generate t (some (new_client cfg)) req w).0
      × (calls (generate t (some (new_client cfg)) req w).1 ≤ calls w + (new_client cfg).retry_max)
unfolding generate
generate-bounded {F} {W} t cfg req w calls one_call no_call =
    let c = new_client cfg in
    let Bounded : Option (Generated F) × W → Type 0 =
      λ out. HasResult out.0 × (calls out.1 ≤ calls w + c.retry_max) in
    if_both Bounded (str_eq c.base_url "") (tt, omega arith)
      (retry-Within t c (record req { model = default_model req.model }) calls one_call no_call
        c.retry_max none (pos c.retry_backoff) w
        (λ z. absurd (omega (arith, new_client-retry_max cfg))))

-- A result that the loop does not try to improve.
abbrev pub Ends : {F : Type 0} → Generated F → Type 0
Ends (done resp) = Unit
Ends (failed e) = retryable e ≡ false

retry-first :
    {F I W : Type 0} (t : Transport F I W) (c : Client) (req : Request I) (n : ℕ) (b : ℤ) (w w' : W)
    (g : Generated F)
    → generate_once t c req w ≡ (g, w')
    → Ends g
    → retry t c req (suc n) none b w ≡ (some g, w')
unfolding retry
retry-first t c req n b w w' (done resp) once final = ground arith
retry-first t c req n b w w' (failed e) once final = ground arith

-- A client whose address is set returns at once what its first call gives, if that is a response or
-- an error that is not retryable.
pub generate-first :
    {F I W : Type 0} (t : Transport F I W) (c : Client) (req : Request I) (w w' : W)
    (g : Generated F)
    → c.base_url ≢ ""
    → 0 < c.retry_max
    → generate_once t c (record req { model = default_model req.model }) w ≡ (g, w')
    → Ends g
    → generate t (some c) req w ≡ (some g, w')
unfolding generate
generate-first t c req w w' g set attempts once final =
    let e : c.retry_max ≡ suc (c.retry_max - 1) = omega arith in
    let req' = record req { model = default_model req.model } in
    let first = retry-first t c req' (c.retry_max - 1) (pos c.retry_backoff) w w' g once final in
    let loop = ap (λ (n : ℕ). retry t c req' n none (pos c.retry_backoff) w) e ∙ first in
    ground (arith, eq_iff c.base_url "", loop)
