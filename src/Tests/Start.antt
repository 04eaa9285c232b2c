-- ===== src/Tests/Start.antt =====
-- A database that answers from the second time on.
use codewave_timer.Base.{
  ℕ, ◌+◌, ◌==◌, if◌then◌else◌, ◌≡◌, refl, [], ◌∷◌, codes, pos, none, true, false, ok, err, foreign,
}
use codewave_timer.Data.Start.{Sql, Once, DatabaseConfig, new_database, get_data_base}
use codewave_timer.Data.Start.Sticky.{asks, get_data_base_sticky}

abbrev late : Sql ℕ
late = record {
  Db = Unit {0};
  Pool = Unit {0};
  open_db = λ d w. if w == 0 then (err (foreign 1), w + 1) else (ok tt, w + 1);
  pool_of = λ d w. (ok tt, w);
  set_max_idle_conns = λ p n w. w;
  set_max_open_conns = λ p n w. w;
  set_conn_max_idle_time = λ p n w. w;
}

abbrev pub conf : DatabaseConfig
conf = record {
  addr = codes "db:3306";
  user = codes "root";
  password = [];
  database = codes "timer";
  max_idle_conn = pos 1;
  max_open_conn = pos 2;
  max_idle_time = pos 3;
}

abbrev closed : Once (Unit {0})
closed = record { done = false; value = none }

get_data_base_sticky_example :
    ((get_data_base late conf (closed, 0)).0 ≡ ok none)
    × (get_data_base late conf (asks late (conf ∷ []) (get_data_base late conf (closed, 0)).1)
        ≡ (ok none, (record { done = true; value = none }, 1)))
unfolding new_database
get_data_base_sticky_example =
    get_data_base_sticky late conf conf (conf ∷ []) closed 0 1 (foreign 1) refl refl
