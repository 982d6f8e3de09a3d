-- ===== src/Gateway/RateLimit/Redis.antt =====
-- The Redis server as apps/backend/gateway/src/rateLimit uses it: INCR in a transaction, and EXPIRE.
-- Its state and its commands are an interface; the laws are what Redis documents of them.
use delego.Base.{
  ℕ, suc, ◌+◌, ◌*◌, ◌≡◌, refl, Bool, true, false, Option, none, some, ltb, if◌then◌else◌,
}
use delego.Base.Text.{Text, same_text, same_text_iff}

-- A number and the time when it runs out, if it does.
pub record Counter : Type 0 where
  pub count : ℕ
  pub end : Option ℕ

abbrev pub is_before : ℕ → Option ℕ → Bool
is_before now none = true
is_before now (some end) = ltb now end

-- The number at a time, 0 when there is none or it has run out.
abbrev pub value : ℕ → Option Counter → ℕ
value now none = 0
value now (some c) = if is_before now c.end then c.count else 0

abbrev pub raised : ℕ → Option Counter → Counter
raised now none = record { count = 1; end = none }
raised now (some c) =
    if is_before now c.end
    then record c { count = suc c.count }
    else record { count = 1; end = none }

abbrev pub ending : ℕ → Counter → Counter
ending end c = record c { end = some end }

pub record Counters : Type 1 where
  pub State : Type 0
  -- INCR key at a time in milliseconds.
  pub incr : ℕ → Text → State → ℕ × State
  -- EXPIRE key seconds, at a time.
  pub expire : ℕ → Text → ℕ → State → State
  pub find : Text → State → Option Counter
  pub incr-value :
      (s : State) (key : Text) (now : ℕ) → (incr now key s).0 ≡ suc (value now (find key s))
  pub find-incr_self :
      (s : State) (key : Text) (now : ℕ)
      → find key (incr now key s).1 ≡ some (raised now (find key s))
  pub find-incr_ne :
      (s : State) (key other : Text) (now : ℕ)
      → same_text key other ≡ false
      → find other (incr now key s).1 ≡ find other s
  pub find-expire_self :
      (s : State) (key : Text) (c : Counter) (seconds now : ℕ)
      → find key s ≡ some c
      → is_before now c.end ≡ true
      → find key (expire now key seconds s) ≡ some (ending (now + seconds * 1000) c)
  pub find-expire_none :
      (s : State) (key : Text) (seconds now : ℕ)
      → find key s ≡ none
      → find key (expire now key seconds s) ≡ none
  pub find-expire_ne :
      (s : State) (key other : Text) (seconds now : ℕ)
      → same_text key other ≡ false
      → find other (expire now key seconds s) ≡ find other s

-- A server that keeps the laws: it finds a counter by its key.
abbrev pub Cells : Type 0
Cells = Text → Option Counter

abbrev pub put : Text → Option Counter → Cells → Cells
put key cell cells other = if same_text key other then cell else cells other

abbrev pub ended : ℕ → ℕ → Option Counter → Option Counter
ended now end none = none
ended now end (some c) = if is_before now c.end then some (ending end c) else some c

pub same_text_refl : (t : Text) → same_text t t ≡ true
same_text_refl t = (same_text_iff t t).1 refl

abbrev pub cell_server : Counters
cell_server = record {
  State = Cells;
  incr =
      λ now key cells. (suc (value now (cells key)), put key (some (raised now (cells key))) cells);
  expire = λ now key seconds cells. put key (ended now (now + seconds * 1000) (cells key)) cells;
  find = λ key cells. cells key;
  incr-value = λ cells key now. refl;
  find-incr_self = λ cells key now. rw (same_text_refl key) refl;
  find-incr_ne = λ cells key other now ne. rw ne refl;
  find-expire_self =
      λ cells key c seconds now found alive. rw (same_text_refl key) (rw found (rw alive refl));
  find-expire_none = λ cells key seconds now found. rw (same_text_refl key) (rw found refl);
  find-expire_ne = λ cells key other seconds now ne. rw ne refl;
}
