-- ===== src/Gateway/RateLimit/Counted.antt =====
-- apps/backend/gateway/src/rateLimit/rateLimiter.ts: the checks of requests that overlap, as the
-- order in which Redis runs their commands, and what the counter of a key stands at.
use delego.Base.{
  ℕ, suc, ◌+◌, ◌*◌, ◌≤◌, ◌<◌, ◌≡◌, refl, Bool, true, false, ◌&&◌, Option, none, some, List, [], ◌∷◌,
  leb, ltb, ◌==◌, if◌then◌else◌, arith,
}
use delego.Base.Text.{Text, same_text}
use delego.Gateway.RateLimit.{
  Request, config_of, key_of, has_run, count_request, set_expiry, Reply, errored,
}
use delego.Gateway.RateLimit.Redis.{Counters, Counter, is_before, value, raised}

-- A request whose transaction Redis gets, or the EXPIRE of one, at a time.
pub data Event : Type 0 where
  arrives : Request → Event
  expires : Request → ℕ → Event

-- The time `t` is in the window behind `start`.
abbrev pub is_in : (start length t : ℕ) → Bool
is_in start length t = leb start t && ltb t (start + length)

-- If the event is about the key, then its window has this length, and Redis runs its command in it.
abbrev pub fits : (key : Text) → (start length : ℕ) → Event → Bool
fits key start length (arrives r) =
    if same_text (key_of r) key then is_in start length r.served else true
fits key start length (expires r at) =
    if same_text (key_of r) key
    then (config_of r).window_ms == length && is_in start length at
    else true

-- How many transactions for the key Redis has run.
unfoldable pub counted : Text → List Event → ℕ
unfolding same_text key_of
counted key [] = 0
counted key (arrives r ∷ es) =
    if same_text (key_of r) key && has_run r.reply then suc (counted key es) else counted key es
counted key (expires r at ∷ es) = counted key es

-- If the event is about the key, then its request may make no more than `m` requests.
abbrev pub keeps_to : (key : Text) → (m : ℕ) → Event → Bool
keeps_to key m (arrives r) =
    if same_text (key_of r) key then leb (config_of r).max_requests m else true
keeps_to key m (expires r at) = true

abbrev pub is_errored : Reply → Bool
is_errored errored = true
is_errored _ = false

-- How many transactions for the key came back without a count: the answer is an error or missing.
unfoldable pub failed_counts : Text → List Event → ℕ
unfolding same_text key_of
failed_counts key [] = 0
failed_counts key (arrives r ∷ es) =
    if same_text (key_of r) key && is_errored r.reply
    then suc (failed_counts key es)
    else failed_counts key es
failed_counts key (expires r at ∷ es) = failed_counts key es

-- Whether a check lets its request pass, by the count that it has got.
abbrev pub admits : (max_requests : ℕ) → Option ℕ → Bool
admits max_requests none = false
admits max_requests (some count) = leb count max_requests

abbrev late : ℕ → Option ℕ → Bool
late limit none = true
late limit (some end) = leb limit end

abbrev pub tallied : (limit n : ℕ) → Option Counter → Bool
tallied limit n none = n == 0
tallied limit n (some c) = c.count == n && late limit c.end

is_before-late :
    (limit now : ℕ) (end : Option ℕ)
    → late limit end ≡ true
    → now < limit
    → is_before now end ≡ true
is_before-late limit now none h lt = refl
is_before-late limit now (some end) h lt = ground arith

pub value-tallied :
    (limit n now : ℕ) (cell : Option Counter)
    → tallied limit n cell ≡ true
    → now < limit
    → value now cell ≡ n
value-tallied limit n now none h lt = ground arith
value-tallied limit n now (some c) h lt =
    ground (arith, is_before-late limit now c.end (ground arith) lt)

pub tallied-raised :
    (limit n now : ℕ) (cell : Option Counter)
    → tallied limit n cell ≡ true
    → now < limit
    → tallied limit (suc n) (some (raised now cell)) ≡ true
tallied-raised limit n now none h lt = ground arith
tallied-raised limit n now (some c) h lt =
    let alive = is_before-late limit now c.end (ground arith) lt in rw alive (ground arith)

module _ (redis : Counters) where
  open redis use {
    State, incr, expire, find, find-incr_self, find-incr_ne, find-expire_self, find-expire_none,
    find-expire_ne,
  }

  unfoldable pub step : Event → State → State
  unfolding count_request set_expiry
  step (arrives r) s = (count_request redis r s).1
  step (expires r at) s = set_expiry redis r at s

  unfoldable pub run : List Event → State → State
  unfolding step
  run [] s = s
  run (e ∷ es) s = run es (step e s)

  -- How many requests with the key pass.
  unfoldable pub passes : Text → List Event → State → ℕ
  unfolding step count_request same_text key_of
  passes key [] s = 0
  passes key (arrives r ∷ es) s =
      let rest = passes key es (step (arrives r) s) in
      if same_text (key_of r) key && admits (config_of r).max_requests (count_request redis r s).0
      then suc rest
      else rest
  passes key (expires r at ∷ es) s = passes key es (step (expires r at) s)

  pub tallied-expire :
      (key : Text) (limit n seconds at : ℕ) (s : State) (cell : Option Counter)
      → find key s ≡ cell
      → tallied limit n cell ≡ true
      → at < limit
      → limit ≤ at + seconds * 1000
      → tallied limit n (find key (expire at key seconds s)) ≡ true
  tallied-expire key limit n seconds at s none found h lt le =
      rw (find-expire_none s key seconds at found) h
  tallied-expire key limit n seconds at s (some c) found h lt le =
      let alive = is_before-late limit at c.end (ground arith) lt in
      rw (find-expire_self s key c seconds at found alive) (ground arith)
