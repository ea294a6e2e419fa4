-- ===== src/Middleware/Window.antt =====
-- A client that keeps asking.
use gaggle.Prelude.{
  ℕ, ap, ◌∙◌, zero, suc, ◌+◌, ◌-◌, ◌≤◌, ◌<◌, ◌≡◌, refl, inl, inr, true, String, List, [], ◌∷◌,
  Option, some, arith, leb, ltb, if◌then◌else◌, Bool-cases, pos,
}
use gaggle.AppErrors.{Result, ok, err, too_many_requests_error}
use gaggle.Posts.Audience.{every}
use gaggle.Middleware.Limiter.{Command, incr, expire, rate_key, allow, rate_limit_middleware}

-- What the requests of one client to one path get: one at the given time, and one after each gap.
abbrev pub ask_all :
    {S : Type 0} → (ℕ → S → Result (Unit {0}) × S) → List ℕ → ℕ → S → List (Result (Unit {0}))
ask_all ask [] now s = (ask now s).0 ∷ []
ask_all ask (gap ∷ gaps) now s =
    let (r, s') = ask now s in let rest = ask_all ask gaps (now + gap) s' in r ∷ rest

-- As many passes as given, and refusals from there on.
abbrev pub first_pass : ℕ → List ℕ → List (Result (Unit {0}))
first_pass zero [] = err too_many_requests_error ∷ []
first_pass (suc k) [] = ok tt ∷ []
first_pass zero (gap ∷ gaps) = err too_many_requests_error ∷ first_pass zero gaps
first_pass (suc k) (gap ∷ gaps) = ok tt ∷ first_pass k gaps

-- The commands of a pipeline run one by one, and their answers.
abbrev pub run_all : {S : Type 0} → (Command → ℕ → S → ℕ × S) → List Command → ℕ → S → List ℕ × S
run_all run [] now s = ([], s)
run_all run (c ∷ cs) now s =
    let (n, s') = run c now s in let (ns, s'') = run_all run cs now s' in (n ∷ ns, s'')

-- What Redis documents, for a key's number as it reads at a time (0 where the key is not there). A
-- pipeline runs its commands in order. INCR answers the number and one more, which is then the
-- number at that time; what becomes of it later is not said, since INCR leaves the key's expiry
-- alone. EXPIRE leaves the number, and keeps it until its seconds have passed.
pub record Counts {S : Type 0} (exec : List Command → ℕ → S → Option (List ℕ) × S)
    (run : Command → ℕ → S → ℕ × S) (number : String → ℕ → S → ℕ) : Type 0 where
  pub in_order :
      (cs : List Command) (now : ℕ) (s : S)
      → exec cs now s ≡ (some (run_all run cs now s).0, (run_all run cs now s).1)
  pub counts :
      (key : String) (now : ℕ) (s : S)
      → ((run (incr key) now s).0 ≡ number key now s + 1)
        × (number key now (run (incr key) now s).1 ≡ number key now s + 1)
  pub keeps :
      (key : String) (window now later : ℕ) (s : S)
      → now ≤ later
      → later < now + window
      → number key later (run (expire key window) now s).1 ≡ number key now s

module _ {S : Type 0} (exec : List Command → ℕ → S → Option (List ℕ) × S)
    (run : Command → ℕ → S → ℕ × S) (number : String → ℕ → S → ℕ) (window : ℕ) where
  -- The state behind the two commands on a key.
  abbrev after : String → ℕ → S → S
  after key now s = (run (expire key window) now (run (incr key) now s).1).1

  one_lem :
      (m : ℕ) (path client_ip : String) (now : ℕ) (s : S)
      → Counts exec run number
      → rate_limit_middleware exec true (pos (suc m)) window path client_ip now s ≡ (
        if leb (number (rate_key path client_ip) now s + 1) (suc m)
            then ok tt
            else err too_many_requests_error,
        after (rate_key path client_ip) now s,
      )
  unfolding rate_limit_middleware allow
  one_lem m path client_ip now s h =
      let key = rate_key path client_ip in
      rw (h.in_order (incr key ∷ expire key window ∷ []) now s, (h.counts key now s).0) refl

  -- Where Redis answers and does what it documents of INCR and EXPIRE, and there is a limit: a client
  -- that asks again within the window after each of its requests to a path gets exactly as many of
  -- them through as the limit exceeds the number that Redis had counted, the first ones, and is
  -- refused ever after, however long it keeps asking, since each request sets the expiry anew.
  pub ask_all-Counts :
      (m : ℕ) (path client_ip : String) (gaps : List ℕ) (now : ℕ) (s : S)
      → Counts exec run number
      → every (λ gap. ltb gap window) gaps ≡ true
      → ask_all (rate_limit_middleware exec true (pos (suc m)) window path client_ip) gaps now s
        ≡ first_pass (suc m - number (rate_key path client_ip) now s) gaps
  ask_all-Counts m path client_ip [] now s h soon =
      let n = number (rate_key path client_ip) now s in
      elim (Bool-cases (leb (n + 1) (suc m))) [
        | inl in_time ↦
            let left : suc m - n ≡ suc (m - n) = ground (arith, in_time) in
            rw (one_lem m path client_ip now s h, in_time, left) refl
        | inr late ↦
            let none_left : suc m - n ≡ 0 = ground (arith, late) in
            rw (one_lem m path client_ip now s h, late, none_left) refl
      ]
  ask_all-Counts m path client_ip (gap ∷ gaps) now s h soon =
      let key = rate_key path client_ip in
      let n = number key now s in
      let s' = after key now s in
      let counted : number key (now + gap) s' ≡ n + 1 =
        h.keeps key window now (now + gap) (run (incr key) now s).1 (omega arith)
          (ground (arith, soon))
        ∙ (h.counts key now s).1 in
      let rest = ask_all-Counts m path client_ip gaps (now + gap) s' h (ground (arith, soon)) in
      elim (Bool-cases (leb (n + 1) (suc m))) [
        | inl in_time ↦
            let left : suc m - n ≡ suc (m - n) = ground (arith, in_time) in
            let next : suc m - number key (now + gap) s' ≡ m - n = ground (arith, counted) in
            rw (one_lem m path client_ip now s h, in_time, left)
              (ap (λ r. ok tt ∷ r) (rest ∙ ap (λ k. first_pass k gaps) next))
        | inr late ↦
            let none_left : suc m - n ≡ 0 = ground (arith, late) in
            let next : suc m - number key (now + gap) s' ≡ 0 = ground (arith, counted, late) in
            rw (one_lem m path client_ip now s h, late, none_left)
              (ap (λ r. err too_many_requests_error ∷ r) (rest ∙ ap (λ k. first_pass k gaps) next))
      ]
