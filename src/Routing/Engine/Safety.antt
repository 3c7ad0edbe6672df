-- ===== src/Routing/Engine/Safety.antt =====
-- routing_engine.cpp: where a planned statement may go.
use mathlib.Core.Path.{subst}
use dbmesh.Prelude.{
  ℕ, true, false, ◌≡◌, ◌⊎◌, inl, inr, refl, arith, none, some, Bytes, value_or, Option-cases,
  Bool-cases, sym, ◌∙◌, ap,
}
use dbmesh.Core.Types.{
  QueryType, q_select, is_write, Role, primary, replica, role_eq, Result, ok, err,
}
use dbmesh.Core.Config.{SchemaConfig, RoutingConfig}
use dbmesh.Routing.Types.{RoutingError, SessionView, RoutePlan, select_role}
use dbmesh.Routing.Classifier.{classify}
use dbmesh.Routing.Classifier.Batch.{any_write, statement_types, classify_writes}
use dbmesh.Routing.Extractor.{extract_or}
use dbmesh.Routing.Schemas.{SchemaRegistry, lookup_schema}
use dbmesh.Routing.Backends.{Registry, BackendEntry}
use dbmesh.Routing.Policies.{Context, Counters}
use dbmesh.Routing.Policies.Picks.{Uniform}
use dbmesh.Routing.Selector.{select}
use dbmesh.Routing.Selector.Sound.{InGroup, Chosen, Fits, select-Chosen, role_of_eq}
use dbmesh.Routing.Engine.{planned_role, plan_of, plan_selected, plan_with, plan}

-- A role is a replica's only for a read outside transactions, with the split on.
planned_role-replica :
    (type : QueryType) (session : SessionView) (config : SchemaConfig) (routing : RoutingConfig)
    → planned_role type session config routing ≡ replica
    → (type ≡ q_select)
      × (session.in_transaction ≡ false)
      × (value_or config.read_write_split routing.read_write_split ≡ true)
unfolding planned_role select_role
planned_role-replica type session config routing h = ground arith

planned_role-write :
    (type : QueryType) (session : SessionView) (config : SchemaConfig) (routing : RoutingConfig)
    → is_write type ≡ true
    → planned_role type session config routing ≡ primary
unfolding planned_role select_role
planned_role-write type session config routing h = ground arith

Chosen-primary :
    (reg : Registry) (routing : RoutingConfig) (g : Bytes) (role : Role) (e : BackendEntry)
    → role ≡ primary
    → Chosen reg routing g role e
    → Fits routing primary e
Chosen-primary reg routing g role e h (inl f) = subst (λ (x : Role). Fits routing x e) h f
Chosen-primary reg routing g role e h (inr (r, _, f)) = f

-- How a plan came about: pinned, or selected.
abbrev pub Planned :
    (ℕ → ℕ → ℕ)
    → Registry
    → RoutingConfig
    → SchemaConfig
    → SessionView
    → Context
    → Counters
    → RoutePlan
    → Type 0
Planned uniform reg routing config session ctx k p =
    (p.plan_role ≡ planned_role p.query_type session config routing)
    × (((session.pinned_backend ≡ some p.plan_backend) × (p.plan_role ≡ primary))
        ⊎ ((select uniform reg routing config p.plan_role ctx k).0 ≡ ok p.plan_backend))

plan_selected-ok :
    (type : QueryType) (schema : Bytes) (role : Role) (r : Result Bytes RoutingError × Counters)
    {p : RoutePlan}
    → (plan_selected type schema role r).0 ≡ ok p
    → (b : Bytes) × (r.0 ≡ ok b) × (p ≡ plan_of type schema b role)
unfolding plan_selected
plan_selected-ok type schema role (ok b, k) h = (b, refl, cc)
plan_selected-ok type schema role (err e, k) h = cc

module _ (uniform : ℕ → ℕ → ℕ) (reg : Registry) (routing : RoutingConfig) (session : SessionView)
    (ctx : Context) (k : Counters) where
  pinned-Planned :
      (type : QueryType) (schema : Bytes) (config : SchemaConfig) (role : Role) (b : Bytes)
      (p : RoutePlan)
      → role ≡ planned_role type session config routing
      → session.pinned_backend ≡ some b
      → role ≡ primary
      → ◌≡◌ {A = Result RoutePlan RoutingError} (ok (plan_of type schema b role)) (ok p)
      → (p.query_type ≡ type) × Planned uniform reg routing config session ctx k p
  pinned-Planned type schema config role b p r pin w h =
      let q : plan_of type schema b role ≡ p = cc in rw (← q) (refl, (r, inl (pin, w)))

  plan_with-ok :
      (type : QueryType) (schema : Bytes) (config : SchemaConfig) {p : RoutePlan}
      → (plan_with uniform reg routing type schema config session ctx k).0 ≡ ok p
      → (p.query_type ≡ type) × Planned uniform reg routing config session ctx k p
  unfolding plan_with
  plan_with-ok type schema config {p} h =
      let role = planned_role type session config routing in
      let picked = select uniform reg routing config role ctx k in
      let selected : (plan_selected type schema role picked).0 ≡ ok p
          → (p.query_type ≡ type) × Planned uniform reg routing config session ctx k p =
        (λ s.
          let (b, f, g) = plan_selected-ok type schema role picked s in
          (ap (λ (q : RoutePlan). q.query_type) g, rw g (refl, inr f))) in
      elim (Option-cases session.pinned_backend) [
        | inl free ↦ selected (rw (free, plan_with) at h)
        | inr (b, pin) ↦ elim (Bool-cases (role_eq role primary)) [
          | inr reads ↦ selected (rw (pin, plan_with, reads) at h)
          | inl writes ↦
              pinned-Planned type schema config role b p refl pin (role_of_eq role primary writes)
                (rw (pin, plan_with, writes) at h)
        ]
      ]

  pub plan-ok :
      (schemas : SchemaRegistry) (sql : Bytes) {p : RoutePlan}
      → (plan uniform schemas reg routing sql session ctx k).0 ≡ ok p
      → (config : SchemaConfig) × (lookup_schema schemas (extract_or sql session.current_schema)
          ≡ some config)
        × (p.query_type ≡ classify sql)
        × Planned uniform reg routing config session ctx k p
  unfolding plan
  plan-ok schemas sql h =
      let schema = extract_or sql session.current_schema in
      elim (Option-cases (lookup_schema schemas schema)) [
        | inl missing ↦ cc (rw (missing, plan) at h)
        | inr (config, found) ↦
            let (t, w) = plan_with-ok (classify sql) schema config (rw (found, plan) at h) in
            (config, found, t, w)
      ]

  -- Where the session is not pinned and its statements are for a primary, so is the plan's backend.
  pub plan-primary :
      (schemas : SchemaRegistry) (sql : Bytes) {p : RoutePlan}
      → Uniform uniform
      → (plan uniform schemas reg routing sql session ctx k).0 ≡ ok p
      → session.pinned_backend ≡ none
      → ((type : QueryType) (config : SchemaConfig)
          → planned_role type session config routing ≡ primary)
      → (p.plan_role ≡ primary)
        × ((config : SchemaConfig) × (e : BackendEntry) × (lookup_schema schemas
                (extract_or sql session.current_schema)
              ≡ some config)
            × (e.id ≡ p.plan_backend)
            × InGroup reg config.backend_group e
            × Fits routing primary e)
  plan-primary schemas sql {p} law h free for_primary =
      let (config, found, t, planned) = plan-ok schemas sql h in
      let is_primary = planned.0 ∙ for_primary p.query_type config in
      (
        is_primary,
        elim planned.1 [
          | inl (pin, _) ↦ cc
          | inr selected ↦
              let (e, i, g, c) =
                select-Chosen uniform reg routing config p.plan_role ctx k law selected in
              (config, e, found, i, g, Chosen-primary reg routing _ p.plan_role e is_primary c)
        ],
      )

  -- No write reaches a replica: when `plan` gives a plan and some statement of the text writes,
  -- the plan's role is the primary, and its backend is the one the session is pinned to or an
  -- entry of the schema's group that has the primary's role and is usable for it. The draws keep
  -- their bounds.
  pub plan-write :
      (schemas : SchemaRegistry) (sql : Bytes) {p : RoutePlan}
      → Uniform uniform
      → (plan uniform schemas reg routing sql session ctx k).0 ≡ ok p
      → any_write (statement_types sql) ≡ true
      → (p.plan_role ≡ primary)
        × ((session.pinned_backend ≡ some p.plan_backend)
            ⊎ ((config : SchemaConfig) × (e : BackendEntry) × (lookup_schema schemas
                    (extract_or sql session.current_schema)
                  ≡ some config)
                × (e.id ≡ p.plan_backend)
                × InGroup reg config.backend_group e
                × Fits routing primary e))
  plan-write schemas sql {p} law h w =
      let (config, found, t, planned) = plan-ok schemas sql h in
      let is_primary : p.plan_role ≡ primary =
        planned.0
        ∙ planned_role-write p.query_type session config routing
            (ap is_write t ∙ classify_writes sql ∙ w) in
      (
        is_primary,
        elim planned.1 [
          | inl (pin, _) ↦ inl pin
          | inr selected ↦
              let (e, i, g, c) =
                select-Chosen uniform reg routing config p.plan_role ctx k law selected in
              inr (config, e, found, i, g, Chosen-primary reg routing _ p.plan_role e is_primary c)
        ],
      )

  -- A plan for a replica is for a text classified as a read, outside transactions, with the split
  -- on, and its backend is selected: a replica of the group that is healthy and within the lag,
  -- or, when there is none, a usable primary. The draws keep their bounds.
  pub plan-replica :
      (schemas : SchemaRegistry) (sql : Bytes) {p : RoutePlan}
      → Uniform uniform
      → (plan uniform schemas reg routing sql session ctx k).0 ≡ ok p
      → p.plan_role ≡ replica
      → (classify sql ≡ q_select)
        × (session.in_transaction ≡ false)
        × ((config : SchemaConfig) × (e : BackendEntry) × (lookup_schema schemas
                (extract_or sql session.current_schema)
              ≡ some config)
            × (value_or config.read_write_split routing.read_write_split ≡ true)
            × (e.id ≡ p.plan_backend)
            × InGroup reg config.backend_group e
            × Chosen reg routing config.backend_group replica e)
  plan-replica schemas sql {p} law h r =
      let (config, found, t, planned) = plan-ok schemas sql h in
      let (reads, outside, split) =
        planned_role-replica p.query_type session config routing (sym planned.0 ∙ r) in
      elim planned.1 [
        | inl (pin, is_primary) ↦ cc
        | inr selected ↦
            let (e, i, g, c) =
              select-Chosen uniform reg routing config p.plan_role ctx k law selected in
            (
              sym t ∙ reads,
              outside,
              (
                config,
                e,
                found,
                split,
                i,
                g,
                subst (λ (x : Role). Chosen reg routing config.backend_group x e) r c,
              ),
            )
      ]
