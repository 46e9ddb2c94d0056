-- ===== src/Reactor/KeyServer/Repeats.antt =====
-- The same key asked twice of `MyTask` of src/include/reactor/key_server.h.
use serach_engine.Base.{
  ℕ, suc, Text, Outcome, ok, ◌>>=◌, >>=-eq-ok, [], ◌∷◌, ◌≡◌, refl, sym, ap, ◌∙◌, some, Option-cases,
  inl, inr, arith, same_iff,
}
use serach_engine.Base.Int.{pos}
use serach_engine.Cache.Redis.Laws.{IsRedis}
use serach_engine.Cache.Redis.{RedisClient, do_query, add_data}
use serach_engine.Key.Recommander.{KeyRecommander, query, get_string}
use serach_engine.Reactor.KeyServer.{render, process}

module _ (r : RedisClient) (l : IsRedis r) where
  do_query-hit :
      (n : ℕ) (msg v : Text) (s : r.Database)
      → r.get msg s ≡ some v
      → (t : r.Database) × ((do_query r (pos (suc n)) msg s ≡ ok (v, t)) × (r.get msg t ≡ some v))
  unfolding do_query
  do_query-hit n msg v s h =
      let (t, (e, keeps)) = l.expire_keeps msg n s in (t, (rw (h, do_query, e) refl, keeps msg ∙ h))

  -- What the lookup returned is in the database.
  do_query-found :
      (n c : ℕ) (msg v : Text) (s t : r.Database)
      → do_query r (pos (suc n)) msg s ≡ ok (c ∷ v, t)
      → r.get msg t ≡ some (c ∷ v)
  unfolding do_query
  do_query-found n c msg v s t h = elim (Option-cases (r.get msg s)) [
    | inl miss ↦ absurd (differ (rw (miss, do_query) at h))
    | inr (w, hit) ↦
        let (t', (e, got)) = do_query-hit n msg w s hit in
        let same_result : ◌≡◌ {A = Outcome (Text × r.Database)} (ok (w, t')) (ok (c ∷ v, t)) =
          sym e ∙ h in
        cc
  ]
    where
      differ : ◌≡◌ {A = Outcome (Text × r.Database)} (ok ([], s)) (ok (c ∷ v, t)) → ⊥
      differ e = cc

  -- A key with a value that is not empty is answered from the database.
  process-hit :
      (n : ℕ) (msg : Text) (k : KeyRecommander) (s : r.Database) (c : ℕ) (v : Text)
      → r.get msg s ≡ some (c ∷ v)
      → (t : r.Database) × ((process r (pos (suc n)) msg k s ≡ ok (k, t))
          × (r.get msg t ≡ some (c ∷ v)))
  unfolding process
  process-hit n msg k s c v h =
      let (t, (e, got)) = do_query-hit n msg (c ∷ v) s h in (t, (rw (e, process) refl, got))

  -- A key that was answered has such a value.
  process-stores :
      (n : ℕ) (msg : Text) (k k' : KeyRecommander) (s t : r.Database)
      → process r (pos (suc n)) msg k s ≡ ok (k', t)
      → (c : ℕ) × (v : Text) × (r.get msg t ≡ some (c ∷ v))
  unfolding process add_data render
  process-stores n msg k k' s t h =
      let (p, q, rest) = >>=-eq-ok (do_query r (pos (suc n)) msg s) after h in found p.0 p.1 q rest
    where
      after : Text × r.Database → Outcome (KeyRecommander × r.Database)
      after p = elim p.0 [
        | [] ↦ query k msg >>= λ asked.
            r.setex msg (pos (suc n)) (render (get_string asked).0) p.1 >>= λ t'.
            ok ((get_string asked).1, t')
        | c ∷ v ↦ ok (k, p.1)
      ]

      found :
          (cached : Text) (s' : r.Database)
          → do_query r (pos (suc n)) msg s ≡ ok (cached, s')
          → after (cached, s') ≡ ok (k', t)
          → (c : ℕ) × (v : Text) × (r.get msg t ≡ some (c ∷ v))
      found [] s' q rest =
          let (asked, q₁, rest₁) =
            >>=-eq-ok (query k msg)
              (λ asked. r.setex msg (pos (suc n)) (render (get_string asked).0) s' >>= λ t'.
                ok ((get_string asked).1, t'))
              rest in
          let (t₁, q₂, rest₂) =
            >>=-eq-ok (r.setex msg (pos (suc n)) (render (get_string asked).0) s')
              (λ t'. ok ((get_string asked).1, t')) rest₁ in
          let (t₂, (e, sets)) = l.setex_sets msg (render (get_string asked).0) n s' in
          let stored : r.get msg t₂ ≡ some (render (get_string asked).0) =
            sets msg ∙ ground (arith, same_iff msg msg) in
          let same_base : t₂ ≡ t = cc in (62, _, ap (r.get msg) (sym same_base) ∙ stored)
      found (c ∷ v) s' q rest =
          let hit : r.get msg s' ≡ some (c ∷ v) = do_query-found n c msg v s s' q in (c, v, cc)

  -- With a Redis that keeps what its documentation says and a time to live of a second or more, a
  -- key that was answered and is asked again right behind is answered without the recommender,
  -- which is left as it is.
  pub process-again :
      (n : ℕ) (msg : Text) (k k' : KeyRecommander) (s t : r.Database)
      → process r (pos (suc n)) msg k s ≡ ok (k', t)
      → (t' : r.Database) × (process r (pos (suc n)) msg k' t ≡ ok (k', t'))
  process-again n msg k k' s t h =
      let (c, v, stored) = process-stores n msg k k' s t h in
      let (t', (e, got)) = process-hit n msg k' t c v stored in (t', e)
