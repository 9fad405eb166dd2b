-- ===== src/Net/DataSource.antt =====
-- web/js/net/source.js: data that is fetched once, for all who ask. A callback is known by a
-- number; one that is left out is none. `D` are the arguments that a callback is called with.
pub mod Delivery
use sigopt_server.Base.{
  ℕ, Bool, true, false, not, ◌&&◌, Option, none, some, List, [], ◌∷◌, ◌++◌, is_some, if◌then◌else◌,
}

pub record Source (D : Type 0) : Type 0 where
  pub has_data : Bool
  pub did_succeed : Bool
  pub response_args : Option D
  pub success_callbacks : List (Option ℕ)
  pub error_callbacks : List (Option ℕ)
  -- Whether the `_.once` of `_doPopulateData` has been used up.
  pub populated : Bool

-- What an operation calls: a callback, or `_fetchData`.
pub data Call (D : Type 0) : Type 0 where
  callback : ℕ → Option D → Call D
  fetch_data : Call D

pub data Event (D : Type 0) : Type 0 where
  get_data : Option ℕ → Option ℕ → Event D
  fetched failed : D → Event D

module _ {D : Type 0} where
  pub new_source : Source D
  new_source = record {
    has_data = false;
    did_succeed = false;
    response_args = none;
    success_callbacks = [];
    error_callbacks = [];
    populated = false;
  }

  -- The constructor of `AvailableDataSource`.
  pub available_source : D → Source D
  available_source args = record {
    has_data = true;
    did_succeed = true;
    response_args = some args;
    success_callbacks = [];
    error_callbacks = [];
    populated = false;
  }

  -- `c && c(...args)`.
  abbrev pub call_one : Option D → Option ℕ → List (Call D)
  call_one args none = []
  call_one args (some c) = callback c args ∷ []

  abbrev pub call_each : Option D → List (Option ℕ) → List (Call D)
  call_each args [] = []
  call_each args (c ∷ cs) = call_one args c ++ call_each args cs

  -- `getData`.
  pub ask : Option ℕ → Option ℕ → Source D → Source D × List (Call D)
  ask success error s =
      if s.has_data
      then (
        s,
        (if s.did_succeed
            then call_one s.response_args success
            else call_one s.response_args error),
      )
      else (
        record s {
          success_callbacks = s.success_callbacks ++ success ∷ [];
          error_callbacks = s.error_callbacks ++ error ∷ [];
          populated = true;
        },
        (if s.populated then [] else fetch_data ∷ []),
      )

  -- The two functions that `_doPopulateData` gives to `_fetchData`.
  pub settle : Bool → D → Source D → Source D × List (Call D)
  settle succeeded args s = (
    record s { has_data = true; did_succeed = succeeded; response_args = some args },
    call_each (some args) (if succeeded then s.success_callbacks else s.error_callbacks),
  )

  pub step : Event D → Source D → Source D × List (Call D)
  unfolding ask settle
  step (get_data success error) s = ask success error s
  step (fetched args) s = settle true args s
  step (failed args) s = settle false args s

  pub run : List (Event D) → Source D → Source D × List (Call D)
  run [] s = (s, [])
  run (e ∷ es) s = let (s', calls) = step e s in let (s'', more) = run es s' in (s'', calls ++ more)
