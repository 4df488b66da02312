-- ===== src/Command/Run.antt =====
-- cmd/kroxy/main.go, run: from the arguments to the end of the process, with proxy/listener.go, Wait.
use kroxy.Base.{
  ◌≡◌, ◌≢◌, Bool-cases, Result-cases, inl, inr, arith, ℕ, ◌*◌, ◌≤◌, ltb, Bool, Option, none, some,
  List, [], ◌∷◌, ◌++◌, Bytes, if◌then◌else◌, ok, err,
}
use kroxy.Config.Load.{Packages}
use kroxy.Config.Settings.{Config}
use kroxy.Config.Startup.{StartError, start}
use kroxy.Observability.Logging.{LogLevel, LogFormat, log_level, log_format}

-- The flags that flag.Parse reads.
pub record Arguments : Type 0 where
  pub show_version : Bool
  pub config_path : Bytes

pub data Service : Type 0 where
  proxy : Service
  metrics admin : Bytes → Service

-- What the select in run meets first: a signal, or the end of a service with its error.
pub data FirstEnd (E : Type 0) : Type 0 where
  shutdown : FirstEnd E
  returned : Service → Option E → FirstEnd E

pub data Exit (E : Type 0) : Type 0 where
  version_shown : Exit E
  start_failed : StartError → Exit E
  service_failed : E → Exit E
  waited : ℕ → Exit E

-- The services that are started and the logger's settings, if all could be built, and how the process
-- ends.
pub record Process (E : Type 0) : Type 0 where
  pub services : List Service
  pub logger : Option (LogLevel × LogFormat)
  pub exit : Exit E

abbrev pub drain_timeout : ℕ
drain_timeout = 30 * 1000

-- How long Wait blocks when the handlers are done so many milliseconds later, or never.
abbrev pub wait : Option ℕ → ℕ
wait none = drain_timeout
wait (some t) = if ltb drain_timeout t then drain_timeout else t

abbrev pub services_of : Config → List Service
services_of c =
    proxy
    ∷ ((if c.metrics.enabled then metrics c.metrics.listen ∷ [] else [])
        ++ (if c.admin.enabled then admin c.admin.listen ∷ [] else []))

module _ {K E : Type 0} (P : Packages K) where
  abbrev pub exit_after : FirstEnd E → Option ℕ → Exit E
  exit_after shutdown handlers = waited (wait handlers)
  exit_after (returned s none) handlers = waited (wait handlers)
  exit_after (returned s (some e)) handlers = service_failed e

  unfoldable pub run : Arguments → FirstEnd E → Option ℕ → Process E
  unfolding start log_level log_format
  run args first handlers =
      if args.show_version
      then record { services = []; logger = none; exit = version_shown }
      else elim (start P args.config_path) [
        | err e ↦ record { services = []; logger = none; exit = start_failed e }
        | ok s ↦ record {
          services = services_of s.settings;
          logger = some (log_level s.settings.log.level, log_format s.settings.log.format);
          exit = exit_after first handlers;
        }
      ]

  -- However run ends, Wait has held it up for 30 s at most; and it ends by Wait only with the proxy
  -- started and no error of a service.
  run_waits :
      (args : Arguments) (first : FirstEnd E) (handlers : Option ℕ) (t : ℕ)
      → (run args first handlers).exit ≡ waited t
      → (t ≤ 30 * 1000) × ((run args first handlers).services ≢ [])
  unfolding run
  run_waits args first handlers t h = elim (Bool-cases args.show_version) [
    | inl e ↦ absurd (ground (arith, e, h))
    | inr e ↦ elim (Result-cases (start P args.config_path)) [
      | inr (x, k) ↦ absurd (ground (arith, e, k, h))
      | inl (s, k) ↦ (ground (arith, e, k, h), λ q. ground (arith, e, k, q))
    ]
  ]
