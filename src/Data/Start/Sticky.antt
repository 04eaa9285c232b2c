-- ===== src/Data/Start/Sticky.antt =====
-- What internal/data/init.go does with a connection that cannot be opened, and with settings.
use codewave_timer.Base.{
  if_true, if_false, ◌≡◌, refl, ap, ◌∙◌, true, false, none, ok, err, Error, List, [], ◌∷◌,
}
use codewave_timer.RedisClient.Conn.{
  with_addr, with_pass_word, with_db, with_pool_size, new_options, apply_options,
}
use codewave_timer.Data.Start.{
  Sql, Once, do_once, set_once, cache_options, DatabaseConfig, RedisConfig, new_database,
  get_data_base,
}

module _ {W : Type 0} (sql : Sql W) where
  -- A later call, however the database would answer it.
  abbrev pub asks : List DatabaseConfig → Once sql.Db × W → Once sql.Db × W
  asks [] g = g
  asks (conf ∷ confs) g = asks confs (get_data_base sql conf g).1

  asks_again :
      (conf : DatabaseConfig) (o : Once sql.Db) (w : W)
      → o.done ≡ true
      → get_data_base sql conf (o, w) ≡ (ok o.value, (o, w))
  unfolding get_data_base do_once
  asks_again conf o w h = if_true _ _ h

  asks_done :
      (confs : List DatabaseConfig) (o : Once sql.Db) (w : W)
      → o.done ≡ true
      → asks confs (o, w) ≡ (o, w)
  asks_done [] o w h = refl
  asks_done (conf ∷ confs) o w h =
      ap (λ p. asks confs p.1) (asks_again conf o w h) ∙ asks_done confs o w h

  asks_first :
      (conf : DatabaseConfig) (o : Once sql.Db) (w w' : W) (e : Error)
      → o.done ≡ false
      → new_database sql conf w ≡ (err e, w')
      → get_data_base sql conf (o, w) ≡ (ok none, (record { done = true; value = none }, w'))
  unfolding get_data_base do_once set_once
  asks_first conf o w w' e first fails = if_false _ _ first ∙ rw fails

  -- When the first call of GetDataBase cannot open the database it returns nil and no error, and so
  -- does every later call: none tries again, whatever its settings.
  pub get_data_base_sticky :
      (conf conf' : DatabaseConfig) (confs : List DatabaseConfig) (o : Once sql.Db) (w w' : W)
      (e : Error)
      → o.done ≡ false
      → new_database sql conf w ≡ (err e, w')
      → ((get_data_base sql conf (o, w)).0 ≡ ok none)
        × (get_data_base sql conf' (asks confs (get_data_base sql conf (o, w)).1)
            ≡ (ok none, (record { done = true; value = none }, w')))
  get_data_base_sticky conf conf' confs o w w' e first fails =
      let never : Once sql.Db = record { done = true; value = none } in
      (
        ap (λ p. p.0) (asks_first conf o w w' e first fails),
        ap (λ p. get_data_base sql conf' (asks confs p.1)) (asks_first conf o w w' e first fails)
            ∙ ap (get_data_base sql conf') (asks_done confs never w' refl)
            ∙ asks_again conf' never w' refl,
      )

-- The options of NewCache arrive as they are set.
cache_options-new_options :
    (conf : RedisConfig)
    → new_options (cache_options conf) ≡ record {
      pass_word = conf.password;
      db = conf.db;
      pool_size = conf.pool_size;
      addr = conf.addr;
    }
unfolding new_options apply_options cache_options with_addr with_pass_word with_db with_pool_size
cache_options-new_options conf = refl
