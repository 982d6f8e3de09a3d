-- ===== src/Wallet/Redis.antt =====
-- The Redis server as apps/backend/wallet/src uses it for numbers: GET, SET with EX, and DEL. Its
-- state and its commands are an interface; the laws are what Redis documents of them. Numbers are
-- stored as decimal texts by the program and read back by it.
use delego.Base.{
  ℕ, ◌+◌, ◌*◌, ◌<◌, ◌≡◌, ◌≢◌, Option, none, some, String, ltb, lt→ltb, if◌then◌else◌, eq_iff, arith,
}
use delego.Base.Maps.{Map, lookup, insert, lookup-insert}

pub record Redis : Type 1 where
  pub State : Type 0
  -- GET at a time in milliseconds.
  pub get : ℕ → String → State → Option ℕ
  -- SET key value EX seconds, at a time.
  pub set : ℕ → String → ℕ → ℕ → State → State
  pub del : String → State → State
  pub get-set_self :
      (s : State) (key : String) (value seconds at now : ℕ)
      → now < at + seconds * 1000
      → get now key (set at key value seconds s) ≡ some value
  pub get-set_ne :
      (s : State) (key other : String) (value seconds at now : ℕ)
      → key ≢ other
      → get now other (set at key value seconds s) ≡ get now other s
  pub get-del_self : (s : State) (key : String) (now : ℕ) → get now key (del key s) ≡ none
  pub get-del_ne :
      (s : State) (key other : String) (now : ℕ)
      → key ≢ other
      → get now other (del key s) ≡ get now other s

-- A server that keeps the laws: each number with the time when it runs out.
abbrev pub Cells : Type 0
Cells = Map (ℕ × ℕ)

abbrev pub alive : ℕ → Option (ℕ × ℕ) → Option ℕ
alive now none = none
alive now (some (value, end)) = if ltb now end then some value else none

unfoldable pub read : ℕ → String → Cells → Option ℕ
read now key cells = alive now (lookup key cells)

unfoldable pub write : ℕ → String → ℕ → ℕ → Cells → Cells
write at key value seconds cells = insert key (value, at + seconds * 1000) cells

unfoldable pub expire : String → Cells → Cells
expire key cells = insert key (0, 0) cells

lookup-insert_self :
    (cells : Cells) (key : String) (cell : ℕ × ℕ) → lookup key (insert key cell cells) ≡ some cell
lookup-insert_self cells key cell = ground (arith, lookup-insert cells key key cell, eq_iff key key)

lookup-insert_ne :
    (cells : Cells) (key other : String) (cell : ℕ × ℕ)
    → key ≢ other
    → lookup other (insert key cell cells) ≡ lookup other cells
lookup-insert_ne cells key other cell ne =
    ground (arith, lookup-insert cells key other cell, eq_iff key other)

pub read-write_self :
    (s : Cells) (key : String) (value seconds at now : ℕ)
    → now < at + seconds * 1000
    → read now key (write at key value seconds s) ≡ some value
unfolding read write
read-write_self s key value seconds at now h =
    rw (lookup-insert_self s key (value, at + seconds * 1000))
      (rw (lt→ltb now (at + seconds * 1000) h))

pub read-write_ne :
    (s : Cells) (key other : String) (value seconds at now : ℕ)
    → key ≢ other
    → read now other (write at key value seconds s) ≡ read now other s
unfolding read write
read-write_ne s key other value seconds at now ne =
    rw (lookup-insert_ne s key other (value, at + seconds * 1000) ne)

pub read-expire_self : (s : Cells) (key : String) (now : ℕ) → read now key (expire key s) ≡ none
unfolding read expire
read-expire_self s key now = rw (lookup-insert_self s key (0, 0)) (ground arith)

pub read-expire_ne :
    (s : Cells) (key other : String) (now : ℕ)
    → key ≢ other
    → read now other (expire key s) ≡ read now other s
unfolding read expire
read-expire_ne s key other now ne = rw (lookup-insert_ne s key other (0, 0) ne)

abbrev pub cell_server : Redis
cell_server = record {
  State = Cells;
  get = read;
  set = write;
  del = expire;
  get-set_self = read-write_self;
  get-set_ne = read-write_ne;
  get-del_self = read-expire_self;
  get-del_ne = read-expire_ne;
}
