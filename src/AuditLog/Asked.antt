-- ===== src/AuditLog/Asked.antt =====
-- What the audit log page has asked for last.
use iop.Base.{
  ℕ, ◌≡◌, refl, inl, inr, List, [], ◌∷◌, ◌++◌, Option, none, some, Text, text_beq, nat_beq,
  Bool-cases,
}
use iop.Api.{Response, resolved, rejected}
use iop.Types.Record.{PaginatedResponse}
use iop.AuditLog.{
  AuditAction, ResourceType, AuditLogFilters, AuditLogPage, build_filters, fetch_logs, settle_logs,
  handle_audit_page, handle_audit_table, handle_search, type_username, choose_action,
  choose_resource, choose_days, first_or,
}

abbrev pub last_call : List AuditLogFilters → Option AuditLogFilters
last_call [] = none
last_call (c ∷ []) = some c
last_call (c ∷ d ∷ cs) = last_call (d ∷ cs)

last_call-append :
    (cs : List AuditLogFilters) (c : AuditLogFilters) → last_call (cs ++ c ∷ []) ≡ some c
last_call-append [] c = refl
last_call-append (d ∷ []) c = refl
last_call-append (d ∷ e ∷ cs) c = last_call-append (e ∷ cs) c

module _ (Log Day : Type 0) (iso end_iso : Day → Text) where
  pub data AuditEvent : Type 0 where
    answered : Response (PaginatedResponse Log) → AuditEvent
    paged : Option ℕ → AuditEvent
    searched refreshed : AuditEvent
    typed : Text → AuditEvent
    chose_action : Option AuditAction → AuditEvent
    chose_resource : Option ResourceType → AuditEvent
    chose_days : Option (Option Day × Option Day) → AuditEvent

  unfoldable pub on_audit : AuditEvent → AuditLogPage Log Day → AuditLogPage Log Day
  on_audit (answered a) s = settle_logs Log Day iso end_iso a s
  on_audit (paged p) s = handle_audit_table Log Day iso end_iso p s
  on_audit searched s = handle_search Log Day iso end_iso s
  on_audit refreshed s = fetch_logs Log Day iso end_iso s
  on_audit (typed q) s = type_username Log Day iso end_iso q s
  on_audit (chose_action a) s = choose_action Log Day iso end_iso a s
  on_audit (chose_resource r) s = choose_resource Log Day iso end_iso r s
  on_audit (chose_days d) s = choose_days Log Day iso end_iso d s

  unfoldable pub run_audit : List AuditEvent → AuditLogPage Log Day → AuditLogPage Log Day
  run_audit [] s = s
  run_audit (e ∷ es) s = run_audit es (on_audit e s)

  -- The last request asked for the filters and the page that are shown.
  abbrev pub IsAsked : AuditLogPage Log Day → Type 0
  IsAsked s = last_call s.calls ≡ some (build_filters Log Day iso end_iso s)

  fetch_logs-IsAsked : (s : AuditLogPage Log Day) → IsAsked (fetch_logs Log Day iso end_iso s)
  unfolding fetch_logs build_filters
  fetch_logs-IsAsked s = last_call-append s.calls (build_filters Log Day iso end_iso s)

  handle_audit_page-IsAsked :
      (p : ℕ) (s : AuditLogPage Log Day)
      → IsAsked s
      → IsAsked (handle_audit_page Log Day iso end_iso p s)
  unfolding handle_audit_page
  handle_audit_page-IsAsked p s h = elim (Bool-cases (nat_beq s.current_page p)) [
    | inl e ↦ rw e h
    | inr e ↦ rw e (fetch_logs-IsAsked (record s { current_page = p }))
  ]

  settle_logs-IsAsked :
      (a : Response (PaginatedResponse Log)) (s : AuditLogPage Log Day)
      → IsAsked s
      → IsAsked (settle_logs Log Day iso end_iso a s)
  unfolding settle_logs build_filters
  settle_logs-IsAsked (resolved res) s h = h
  settle_logs-IsAsked (rejected e) s h = h

  on_audit-IsAsked :
      (e : AuditEvent) (s : AuditLogPage Log Day) → IsAsked s → IsAsked (on_audit e s)
  unfolding on_audit handle_audit_table handle_search type_username choose_action choose_resource
      choose_days
  on_audit-IsAsked (answered a) s h = settle_logs-IsAsked a s h
  on_audit-IsAsked (paged p) s h = handle_audit_page-IsAsked (first_or Log Day iso end_iso p) s h
  on_audit-IsAsked searched s h = handle_audit_page-IsAsked 1 s h
  on_audit-IsAsked refreshed s h = fetch_logs-IsAsked s
  on_audit-IsAsked (typed q) s h = elim (Bool-cases (text_beq s.username_filter q)) [
    | inl e ↦ rw e h
    | inr e ↦ rw e (fetch_logs-IsAsked (record s { username_filter = q }))
  ]
  on_audit-IsAsked (chose_action a) s h = fetch_logs-IsAsked (record s { action_filter = a })
  on_audit-IsAsked (chose_resource r) s h =
      fetch_logs-IsAsked (record s { resource_type_filter = r })
  on_audit-IsAsked (chose_days d) s h = fetch_logs-IsAsked (record s { date_range = d })

  -- However the filters and the page are changed and answers arrive, after the fetch on mount: the
  -- last request that was sent asks for exactly the filters and the page that are shown.
  pub run_audit-IsAsked :
      (es : List AuditEvent) (s : AuditLogPage Log Day) → IsAsked s → IsAsked (run_audit es s)
  unfolding run_audit
  run_audit-IsAsked [] s h = h
  run_audit-IsAsked (e ∷ es) s h = run_audit-IsAsked es (on_audit e s) (on_audit-IsAsked e s h)
