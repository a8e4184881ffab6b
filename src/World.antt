-- ===== src/World.antt =====
-- What the processes share: the keyspace of Redis and the table of balances, and the steps by which
-- others change them.
use generation_balance_servi.Base.{List, [], ◌∷◌}
use generation_balance_servi.Redis.{Redis, Call, exec}
use generation_balance_servi.Table.{Balance, Table, upsert_many}

pub record World : Type 0 where
  pub redis : Redis
  pub table : Table

-- A step of another process.
pub data Event : Type 0 where
  command : Call → Event
  write : List Balance → Event

abbrev pub happen : Event → World → World
happen (command c) w = record w { redis = exec c w.redis }
happen (write rows) w = record w { table = (upsert_many rows w.table).1 }

abbrev pub happen_all : List Event → World → World
happen_all [] w = w
happen_all (e ∷ events) w = happen_all events (happen e w)
