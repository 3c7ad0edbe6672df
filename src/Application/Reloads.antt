-- ===== src/Application/Reloads.antt =====
-- application.cpp and config.cpp: the configuration through signals and reloads.
use dbmesh.Prelude.{
  not, ◌&&◌, arith, ◌≡◌, ◌↔◌, refl, Bool, true, false, List, [], ◌∷◌, Option, none, some, Bytes,
  if◌then◌else◌, ap, sym, ◌∙◌,
}
use dbmesh.Core.Types.{Result, ok, err}
use dbmesh.Core.Config.{Config}
use dbmesh.Core.Yaml.{Yaml, Parsed}
use dbmesh.Core.Validate.{Invalid, validate}
use dbmesh.Core.Valid.{Valid, validate-Valid}
use dbmesh.Core.Load.{LoadError, not_found, caught, validated, loaded, parse_file, load, reload}
use dbmesh.Application.{
  Application, Signal, sigterm, sigint, sighup, another, request_shutdown, on_config_reload, rearm,
  on_signal,
}

validated-Valid :
    (cfg : Config) (r : Option Invalid) {c : Config}
    → validate cfg ≡ r
    → validated cfg r ≡ ok c
    → Valid c
unfolding validated
validated-Valid cfg (some e) v h = cc
validated-Valid cfg none {c} v h =
    let same : cfg ≡ c = cc in (validate-Valid c).0 (ap validate (sym same) ∙ v)

loaded-Valid : (p : Parsed Config) {c : Config} → loaded p ≡ ok c → Valid c
unfolding loaded
loaded-Valid (err e) h = cc
loaded-Valid (ok cfg) h = validated-Valid cfg (validate cfg) refl h

validated-same : (cfg : Config) (r : Option Invalid) {c : Config} → validated cfg r ≡ ok c → cfg ≡ c
unfolding validated
validated-same cfg none h = cc
validated-same cfg (some e) h = cc

loaded-ok : (p : Parsed Config) (c : Config) → (loaded p ≡ ok c) ↔ ((p ≡ ok c) × Valid c)
unfolding loaded
loaded-ok (err e) c = ((λ h. cc), (λ h. cc))
loaded-ok (ok cfg) c = (
  (λ h. (ap ok (validated-same cfg (validate cfg) h), validated-Valid cfg (validate cfg) refl h)),
  (λ h.
      let same : cfg ≡ c = cc in
      ap (validated cfg) (ap validate same ∙ (validate-Valid c).1 h.1) ∙ ap ok same),
)

module _ (yaml : Yaml) (path : Bytes) where
  -- The files as they are at some time: what there is, and what it says.
  abbrev pub Files : Type 0
  Files = (Bytes → Parsed Bool) × (Bytes → Parsed yaml.Node)

  -- What `load` does when the test for the file gave `r`, and its contents `p`.
  load_of : Parsed Bool → Parsed Config → Result Config LoadError
  unfolding loaded
  load_of r p = elim r [
    | err e ↦ err (caught e)
    | ok there ↦ if there then loaded p else err not_found
  ]

  load_of-ok :
      (r : Parsed Bool) (p : Parsed Config) (c : Config)
      → (load_of r p ≡ ok c) ↔ ((r ≡ ok true) × (p ≡ ok c) × Valid c)
  unfolding load_of
  load_of-ok (err e) p c = ((λ h. cc), (λ h. cc))
  load_of-ok (ok false) p c = ((λ h. cc), (λ h. cc))
  load_of-ok (ok true) p c = (
    (λ h. let (q, v) = (loaded-ok p c).0 h in (refl, q, v)),
    (λ h. let (r, q, v) = h in (loaded-ok p c).1 (q, v)),
  )

  -- Loading a file gives a configuration exactly when the file is there, is read as that
  -- configuration, and the configuration is valid.
  pub load-ok :
      (files : Files) (c : Config)
      → (load yaml files.0 files.1 path ≡ ok c)
        ↔ ((files.0 path ≡ ok true) × (parse_file yaml files.0 files.1 path ≡ ok c) × Valid c)
  unfolding load load_of
  load-ok files c = load_of-ok (files.0 path) (parse_file yaml files.0 files.1 path) c

  reload-Valid : (files : Files) {c : Config} → reload yaml files.0 files.1 path ≡ some c → Valid c
  unfolding reload
  reload-Valid files {c} h = by_load (load yaml files.0 files.1 path) refl h
    where
      by_load :
          (r : Result Config LoadError)
          → load yaml files.0 files.1 path ≡ r
          → ◌≡◌ {A = Option Config} (elim r [ ok cfg ↦ some cfg | err e ↦ none ]) (some c)
          → Valid c
      by_load (err e) q k = cc
      by_load (ok cfg) q k =
          let same : cfg ≡ c = cc in
          let (there, read, v) = (load-ok files c).0 (q ∙ ap ok same) in v

  -- The signals that come in, each with the files at that time.
  unfoldable pub signals : Application → List (Signal × Files) → Application
  unfolding on_signal
  signals a [] = a
  signals a ((s, files) ∷ rest) = signals (on_signal a s (reload yaml files.0 files.1 path)) rest

  -- What stays through a signal.
  record Steady (a b : Application) : Type 0 where
    valid : Valid b.config
    unchanged : b.subsystems ≡ a.subsystems
    down : a.shutting_down ≡ true → b.shutting_down ≡ true

  rearm-Steady : (a : Application) → Valid a.config → Steady a (rearm a)
  rearm-Steady a v = by_flag a.shutting_down refl
    where
      by_flag :
          (b : Bool) → a.shutting_down ≡ b → Steady a (if b then a else record a { armed = true })
      by_flag true e = record { valid = v; unchanged = refl; down = λ d. d }
      by_flag false e = record { valid = v; unchanged = refl; down = λ d. d }

  request_shutdown-Steady : (a : Application) → Valid a.config → Steady a (request_shutdown a)
  unfolding request_shutdown
  request_shutdown-Steady a v = by_flag a.shutting_down
    where
      by_flag :
          (b : Bool) → Steady a (if b then a else record a { shutting_down = true; stopped = true })
      by_flag true = record { valid = v; unchanged = refl; down = λ d. d }
      by_flag false = record { valid = v; unchanged = refl; down = λ d. refl }

  on_signal-Steady :
      (a : Application) (s : Signal) (files : Files)
      → Valid a.config
      → Steady a (on_signal a s (reload yaml files.0 files.1 path))
  unfolding on_signal
  on_signal-Steady a sigterm files v =
      let t = request_shutdown-Steady (record a { armed = false }) v in
      record { valid = t.valid; unchanged = t.unchanged; down = t.down }
  on_signal-Steady a sigint files v =
      let t = request_shutdown-Steady (record a { armed = false }) v in
      record { valid = t.valid; unchanged = t.unchanged; down = t.down }
  on_signal-Steady a another files v =
      let t = rearm-Steady (record a { armed = false }) v in
      record { valid = t.valid; unchanged = t.unchanged; down = t.down }
  on_signal-Steady a sighup files v = by_reload (reload yaml files.0 files.1 path) refl
    where
      by_reload :
          (r : Option Config)
          → reload yaml files.0 files.1 path ≡ r
          → Steady a (rearm (on_config_reload (record a { armed = false }) r))
      by_reload none e =
          let t = rearm-Steady (record a { armed = false }) v in
          record { valid = t.valid; unchanged = t.unchanged; down = t.down }
      by_reload (some c) e =
          let t = rearm-Steady (record a { armed = false; config = c }) (reload-Valid files e) in
          record { valid = t.valid; unchanged = t.unchanged; down = t.down }

  signals-Steady :
      (a : Application) (ss : List (Signal × Files)) → Valid a.config → Steady a (signals a ss)
  unfolding signals
  signals-Steady a [] v = record { valid = v; unchanged = refl; down = λ d. d }
  signals-Steady a ((s, files) ∷ rest) v =
      let t = on_signal-Steady a s files v in
      let r = signals-Steady (on_signal a s (reload yaml files.0 files.1 path)) rest t.valid in
      record {
        valid = r.valid;
        unchanged = r.unchanged ∙ t.unchanged;
        down = λ d. r.down (t.down d);
      }

  -- Whatever signals come in, and whatever the file holds when it is read again, the configuration
  -- in use stays valid when it was; the registries and pools stay as they are; and a shutdown that
  -- was requested stays so.
  pub signals-Valid :
      (a : Application) (ss : List (Signal × Files))
      → Valid a.config
      → Valid (signals a ss).config
        × ((signals a ss).subsystems ≡ a.subsystems)
        × ((a.shutting_down && not (signals a ss).shutting_down) ≡ false)
  signals-Valid a ss v =
      let t = signals-Steady a ss v in (t.valid, t.unchanged, ground (arith, t.down))
