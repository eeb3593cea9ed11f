-- ===== src/Plugins/Registry/Records.antt =====
-- internal/plugins/registry/memory.go: the records.
use llm_cache.Common.{◌≡◌, ◌⊎◌, inl, inr, Str, str_key, Str-discrete, ite, arith, Option-cases, ℕ}
use llm_cache.Common.Dict.{lookup, lookup-insert}
use llm_cache.Common.Result.{Result, ok, err, Result-cases}
use llm_cache.Common.Word.{inc64}
use llm_cache.Plugins.Registry.{Record, Memory, not_found, exists, refused, get, create, update}

module _ {X : Type 0} where
  -- A creation is refused for an id that is taken, and nothing changes; any other gives the record
  -- the revision 1, under which it is found, and no other id is affected.
  pub create-get :
      (r : Record X) (m : Memory X)
      → ((create r m ≡ (err exists, m)) × (c : Record X) × (get r.id m ≡ ok c))
        ⊎ ((m' : Memory X) × (create r m ≡ (ok (record r { rev = 1 }), m'))
            × (get r.id m ≡ err not_found)
            × ((q : Str)
                → get q m' ≡ ite (Str-discrete r.id q) (ok (record r { rev = 1 })) (get q m)))
  unfolding create get
  create-get r m = elim (Option-cases (lookup r.id m.recs)) [
    | inr (c, here) ↦ inl (ground arith, c, ground arith)
    | inl gone ↦
        let c : Record X = record r { rev = 1 } in
        inr (
          (create r m).1,
          ground arith,
          ground arith,
          λ q. ground (arith, lookup-insert r.id q c m.recs),
        )
  ]

  -- An update is all or nothing: of a missing record, or by a change that is refused, it leaves the
  -- store as it was; any other stores what the change made of the record, with the next revision
  -- and the time of the call, answers with it, and affects no other id.
  pub update-get :
      (id : Str) (change : Record X → Result Str (Record X)) (now : ℕ) (m : Memory X)
      → ((update id change now m ≡ (err not_found, m)) × (get id m ≡ err not_found))
        ⊎ ((r : Record X) × (e : Str) × (get id m ≡ ok r)
            × (change r ≡ err e)
            × (update id change now m ≡ (err (refused e), m)))
        ⊎ ((r r' : Record X) × (m' : Memory X) × (get id m ≡ ok r)
            × (change r ≡ ok r')
            × (update id change now m
                ≡ (ok (record r' { rev = inc64 r'.rev; updated_at = now }), m'))
            × ((q : Str)
                → get q m'
                  ≡ ite
                      (Str-discrete id q)
                      (ok (record r' { rev = inc64 r'.rev; updated_at = now }))
                      (get q m)))
  unfolding update get
  update-get id change now m = elim (Option-cases (lookup id m.recs)) [
    | inl gone ↦ inl (ground arith, ground arith)
    | inr (r, here) ↦ elim (Result-cases (change r)) [
      | inr (e, failed) ↦ inr (inl (r, e, ground arith, failed, ground arith))
      | inl (r', changed) ↦
          let c : Record X = record r' { rev = inc64 r'.rev; updated_at = now } in
          inr (
            inr (
              r,
              r',
              (update id change now m).1,
              ground arith,
              changed,
              ground arith,
              λ q. ground (arith, lookup-insert id q c m.recs),
            ))
    ]
  ]
