-- ===== src/Net/DataSource/Delivery.antt =====
-- web/js/net/source.js: every request for the data is answered once, by one fetch.
use sigopt_server.Base.{
  ℕ, ◌≡◌, refl, sym, ap, ◌∙◌, Bool, true, false, Option, none, some, List, [], ◌∷◌, ◌++◌,
  append_assoc, append-nil, if◌then◌else◌, arith,
}
use sigopt_server.Net.DataSource.{
  Source, Call, fetch_data, Event, get_data, fetched, failed, new_source, call_one, call_each, ask,
  settle, step, run,
}

abbrev pub side : Bool → List (Option ℕ × Option ℕ) → List (Option ℕ)
side b [] = []
side b ((success, error) ∷ rest) = (if b then success else error) ∷ side b rest

side-append :
    (b : Bool) (cs qs : List (Option ℕ × Option ℕ)) → side b (cs ++ qs) ≡ side b cs ++ side b qs
side-append b [] qs = refl
side-append b (c ∷ cs) qs = ap ((if b then c.0 else c.1) ∷◌) (side-append b cs qs)

side-snoc :
    (b : Bool) (cs : List (Option ℕ × Option ℕ)) (success error : Option ℕ)
    → side b cs ++ (if b then success else error) ∷ [] ≡ side b (cs ++ (success, error) ∷ [])
side-snoc b [] success error = refl
side-snoc b (c ∷ cs) success error = ap ((if b then c.0 else c.1) ∷◌) (side-snoc b cs success error)

module _ {D : Type 0} where
  abbrev pub asks : List (Option ℕ × Option ℕ) → List (Event D)
  asks [] = []
  asks ((success, error) ∷ rest) = get_data success error ∷ asks rest

  abbrev pub settling : Bool → D → Event D
  settling true args = fetched args
  settling false args = failed args

  call_each-append :
      (args : Option D) (xs ys : List (Option ℕ))
      → call_each args (xs ++ ys) ≡ call_each args xs ++ call_each args ys
  call_each-append args [] ys = refl
  call_each-append args (x ∷ xs) ys =
      ap (call_one args x ++◌) (call_each-append args xs ys)
      ∙ sym (append_assoc (call_one args x) (call_each args xs) (call_each args ys))

  abbrev waiting : List (Option ℕ × Option ℕ) → Source D
  waiting cs = record {
    has_data = false;
    did_succeed = false;
    response_args = none;
    success_callbacks = side true cs;
    error_callbacks = side false cs;
    populated = true;
  }

  run-append :
      (es fs : List (Event D)) (s : Source D)
      → run (es ++ fs) s ≡ ((run fs (run es s).0).0, (run es s).1 ++ (run fs (run es s).0).1)
  unfolding run
  run-append [] fs s = refl
  run-append (e ∷ es) fs s =
      let after = (step e s).0 in
      ap (λ (r : Source D × List (Call D)). (r.0, (step e s).1 ++ r.1)) (run-append es fs after)
      ∙ ap (λ calls. ((run fs (run es after).0).0, calls))
          (sym (append_assoc (step e s).1 (run es after).1 (run fs (run es after).0).1))

  run-asks-waiting :
      (cs qs : List (Option ℕ × Option ℕ)) → run (asks qs) (waiting cs) ≡ (waiting (cs ++ qs), [])
  unfolding run step
  run-asks-waiting cs [] = rw append-nil
  run-asks-waiting cs ((success, error) ∷ qs) =
      simp (side-snoc true cs success error, side-snoc false cs success error)
        (run-asks-waiting (cs ++ (success, error) ∷ []) qs
          ∙ ap (λ all. (waiting all, [])) (append_assoc cs ((success, error) ∷ []) qs))

  ask-settled :
      (s : Source D) (success error : Option ℕ)
      → s.has_data ≡ true
      → ask success error s
        ≡ (s, call_one s.response_args (if s.did_succeed then success else error))
  unfolding ask
  ask-settled s success error h = ground arith

  -- Once the data is there, a request is answered at once.
  run-asks_settled :
      (s : Source D) (qs : List (Option ℕ × Option ℕ))
      → s.has_data ≡ true
      → run (asks qs) s ≡ (s, call_each s.response_args (side s.did_succeed qs))
  unfolding run step
  run-asks_settled s [] h = refl
  run-asks_settled s ((success, error) ∷ qs) h = rw (ask-settled s success error h) (
      ap
        (λ (r : Source D × List (Call D)).
          (r.0, call_one s.response_args (if s.did_succeed then success else error) ++ r.1))
        (run-asks_settled s qs h))

  run-settling :
      (b : Bool) (args : D) (cs late : List (Option ℕ × Option ℕ))
      → (run (settling b args ∷ asks late) (waiting cs)).1
        ≡ call_each (some args) (side b (cs ++ late))
  unfolding run step settle
  run-settling true args cs late =
      rw (run-asks_settled (settle true args (waiting cs)).0 late refl, side-append true cs late)
        (sym (call_each-append (some args) (side true cs) (side true late)))
  run-settling false args cs late =
      rw (run-asks_settled (settle false args (waiting cs)).0 late refl, side-append false cs late)
        (sym (call_each-append (some args) (side false cs) (side false late)))

  -- However the requests lie before and after the answer of the fetch, at least one before it:
  -- `_fetchData` is called once, by the first request, and then each request's success callback,
  -- or error callback if the fetch failed, is called once with what the fetch gave, in the order
  -- of the requests.
  pub run-delivery :
      (first : Option ℕ × Option ℕ) (early late : List (Option ℕ × Option ℕ)) (succeeded : Bool)
      (args : D)
      → (run (asks (first ∷ early) ++ settling succeeded args ∷ asks late) new_source).1
        ≡ fetch_data ∷ call_each (some args) (side succeeded (first ∷ early ++ late))
  unfolding run step new_source
  run-delivery (success, error) early late succeeded args = ap (fetch_data ∷◌) (
      ap (λ (r : Source D × List (Call D)). r.1)
        (run-append (asks early) (settling succeeded args ∷ asks late)
          (waiting ((success, error) ∷ [])))
      ∙ rw (run-asks-waiting ((success, error) ∷ []) early)
          (run-settling succeeded args ((success, error) ∷ early) late))
