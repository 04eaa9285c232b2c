-- ===== src/Settings/Sticky.antt =====
-- That the settings are read once: GetGlobalConfig of internal/config/config.go.
use codewave_timer.Base.{
  Bool, false, if◌then◌else◌, arith, ◌≡◌, ◌⊎◌, inl, inr, refl, Bool-cases, true, Bytes, Result, ok,
  err, panic, spin,
}
use codewave_timer.Data.TaskCache.Members.{ok-inj}
use codewave_timer.Settings.{GlobalConfig, Viper, Globals, read_conf, once_over, get_global_config}

module _ {W : Type 0} (viper : Viper W) where
  over :
      (p : Result (Unit {0}) × (Globals × W))
      → ((once_over viper p).0 ≡ spin) ⊎ ((once_over viper p).1.0.once_done ≡ true)
  unfolding once_over
  over (ok u, s) = inr refl
  over (err e, s) = inr refl
  over (panic, s) = inr refl
  over (spin, s) = inl refl

  first_done :
      (file : Bytes) (s : Globals × W)
      → ((get_global_config viper file s).0 ≡ spin)
        ⊎ ((get_global_config viper file s).1.0.once_done ≡ true)
  unfolding get_global_config
  first_done file (g, w) = elim (Bool-cases g.once_done) [
    | inl before ↦ inr (rw before refl)
    | inr not_yet ↦ simp not_yet (over (read_conf viper file (g, w)))
  ]

  done_stays :
      (file : Bytes) (s : Globals × W)
      → s.0.once_done ≡ true
      → get_global_config viper file s ≡ (ok s.0.global_config, s)
  unfolding get_global_config
  done_stays file (g, w) h = rw h refl

  returned :
      (p : Result (Unit {0}) × (Globals × W)) (conf : GlobalConfig)
      → (once_over viper p).0 ≡ ok conf
      → (once_over viper p).1.0.global_config ≡ conf
  unfolding once_over
  returned (ok u, s) conf h = ok-inj h
  returned (err e, s) conf h = absurd (ground arith)
  returned (panic, s) conf h = absurd (ground arith)
  returned (spin, s) conf h = absurd (ground arith)

  abbrev Given : GlobalConfig → Result GlobalConfig × (Globals × W) → Type 0
  Given conf p = p.0 ≡ ok conf → p.1.0.global_config ≡ conf

  either :
      (b : Bool) (conf : GlobalConfig) (p q : Result GlobalConfig × (Globals × W))
      → Given conf p
      → Given conf q
      → Given conf (if b then p else q)
  either true conf p q hp hq = hp
  either false conf p q hp hq = hq

  -- The settings that are given are those of the variable.
  pub get_global_config-ok :
      (file : Bytes) (s : Globals × W) (conf : GlobalConfig)
      → (get_global_config viper file s).0 ≡ ok conf
      → (get_global_config viper file s).1.0.global_config ≡ conf
  unfolding get_global_config
  get_global_config-ok file (g, w) conf =
      either g.once_done conf (ok g.global_config, (g, w))
        (once_over viper (read_conf viper file (g, w))) ok-inj
        (returned (read_conf viper file (g, w)) conf)

  -- After a call of GetGlobalConfig that has come back, in whatever way, every later call gives the
  -- settings that this one has left behind, for whatever file, and reads nothing.
  pub get_global_config_sticky :
      (file file' : Bytes) (s : Globals × W)
      → ((get_global_config viper file s).0 ≡ spin)
        ⊎ (get_global_config viper file' (get_global_config viper file s).1 ≡ (
          ok (get_global_config viper file s).1.0.global_config,
          (get_global_config viper file s).1,
        ))
  get_global_config_sticky file file' s = elim (first_done file s) [
    | inl loops ↦ inl loops
    | inr over ↦ inr (done_stays file' (get_global_config viper file s).1 over)
  ]
