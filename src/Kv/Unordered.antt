-- ===== src/Kv/Unordered.antt =====
-- The key-value store where calls come in another order than the times that they read: `GetKV`
-- reads the clock before it waits for `kvLock`.
use quash.Kv.{expired}
use quash.Structs.{KvValue}
use quash.Clock.{Time}
use quash.Prelude.Int.{◌≤ℤ◌}
use quash.Messages.{GetKvResponse}
use quash.Prelude.{
  ap, refl, subst, sym, true, Bool-cases, List, Option, String, [], false, inl, inr, none, some,
  ◌∷◌, ◌≡◌, ◌⊎◌,
}
use quash.Kv.Live.{expired_mono, found, live}
use quash.Handler.{Reply, error, ok}
use quash.Kv.Session.{
  Answer, KvCall, Table, added, answers, collects, deleted, deletes, gets, got, next_table, sets,
  silent,
}
use quash.GoMap.{GoMap, get}

-- A key shows what the table shows, or nothing, where that has expired at `u`.
abbrev pub Fresher : Time → Option KvValue → Option KvValue → Type 0
Fresher u o p = (o ≡ p) ⊎ ((o ≡ none) × (live u p ≡ none))

abbrev pub Keeps : Time → GoMap KvValue → Table → Type 0
Keeps u m table = (k : String) → Fresher u (get m k) (table k)

-- What `GetKV` may answer where the table shows `p`, by a clock that read `now`: the value, if it
-- has not expired at `now`, or that the key does not exist, if nothing is live at `u`.
abbrev pub GetFits : Time → Time → Option KvValue → Reply GetKvResponse → Type 0
GetFits u now p (ok r) =
    (v : KvValue) × (p ≡ some v) × (r.value ≡ v.value) × (expired now v ≡ false)
GetFits u now p (error e) = (e ≡ "key doesn't exist") × (live u p ≡ none)

abbrev pub AnswerFits : Time → Table → Time × KvCall → Answer → Type 0
AnswerFits u table (now, gets kv) (got r) = GetFits u now (table kv.key) r
AnswerFits u table (now, sets kv) a = a ≡ added (ok (record { response = "Added" }))
AnswerFits u table (now, deletes req) a = a ≡ deleted (ok (record { value = "OK" }))
AnswerFits u table (now, collects order) a = a ≡ silent
AnswerFits u table (now, gets kv) a = ⊥

-- The answers of a sequence of calls, each where the table shows what the calls before have set.
abbrev pub AllFit : Time → Table → List (Time × KvCall) → List Answer → Type 0
AllFit u table [] answers = answers ≡ []
AllFit u table (c ∷ cs) [] = ⊥
AllFit u table (c ∷ cs) (a ∷ answers) =
    AnswerFits u table c a × AllFit u (next_table table c.0 c.1) cs answers

shown : (u : Time) (v : KvValue) (p : Option KvValue) → Fresher u (some v) p → some v ≡ p
shown u v p (inl e) = e
shown u v p (inr (e, dead)) = absurd (cc)

module _ (now u : Time) (h : now ≤ℤ u) where
  dead_later : (v : KvValue) → expired now v ≡ true → live u (some v) ≡ none
  dead_later v old = rw (expired_mono now u v h old)

  live-some : (v : KvValue) → Fresher u (live now (some v)) (some v)
  live-some v = elim (Bool-cases (expired now v)) [
    | inl old ↦ rw old (inr (refl, dead_later v old))
    | inr new ↦ rw new (inl refl)
  ]

  -- The lazy drop and the collector forget what has expired.
  pub live-Fresher : (o p : Option KvValue) → Fresher u o p → Fresher u (live now o) p
  live-Fresher none p f = f
  live-Fresher (some v) p f =
      subst (λ x. Fresher u (live now (some v)) x) (shown u v p f) (live-some v)

  found_some : (v : KvValue) → GetFits u now (some v) (found (live now (some v)))
  found_some v = elim (Bool-cases (expired now v)) [
    | inl old ↦ rw old (refl, dead_later v old)
    | inr new ↦ rw new (v, refl, refl, new)
  ]

  found_none : (p : Option KvValue) → Fresher u none p → live u p ≡ none
  found_none p (inl e) = ap (live u) (sym e)
  found_none p (inr (e, dead)) = dead

  pub found-GetFits : (o p : Option KvValue) → Fresher u o p → GetFits u now p (found (live now o))
  found-GetFits none p f = (refl, found_none p f)
  found-GetFits (some v) p f =
      subst (λ x. GetFits u now x (found (live now (some v)))) (shown u v p f) (found_some v)
