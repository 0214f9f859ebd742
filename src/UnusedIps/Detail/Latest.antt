-- ===== src/UnusedIps/Detail/Latest.antt =====
-- Once all requests are answered in order, the page of one subnet shows the last one's answer.
use iop.Base.{
  ℕ, ◌≡◌, refl, sym, ap, ◌∙◌, inl, inr, true, ◌&&◌, List, [], ◌∷◌, ◌++◌, Option, none, some, Text,
  text_beq, text_beq_iff, nat_beq, nat_beq_iff, arith, Bool-cases,
}
use iop.Api.{Response, resolved, rejected}
use iop.UnusedIps.Detail.{
  UnusedIpsResponse, detail_page_size, UnusedRequest, DetailPage, fetch_unused, settle_unused,
  as_truthy, fetch_for, same_id, page_effect, armed, search_effect, detail_effects, mounted,
  open_subnet, back_to_summary, type_search, choose_page, fire_search, check_ip, refetch_updated,
  Step, opened, went_back, typed, chosen, fired, checked, updated, answered, Reach, start, later,
}

-- What an answer shows.
abbrev pub content_of : Response UnusedIpsResponse → List Text × ℕ
content_of (resolved res) = (res.items, res.total)
content_of (rejected e) = ([], 0)

abbrev pub request : Text → ℕ → Text → UnusedRequest
request id p q = record { subnet = id; page_num = p; page_size = detail_page_size; query = q }

-- A timer waits for the search in the field, and for the subnet that is open.
abbrev Timed : DetailPage → Type 0
Timed s =
    (id q : Text)
    → s.timer ≡ some (id, q)
    → (q ≡ s.detail_search) × ((j : Text) → as_truthy s.selected_subnet_id ≡ some j → j ≡ id)

module _ (server : UnusedRequest → Response UnusedIpsResponse) where
  -- What is shown once the requests are answered in order.
  unfoldable shown_after : List UnusedRequest → List Text × ℕ → List Text × ℕ
  shown_after [] c = c
  shown_after (r ∷ rs) c = shown_after rs (content_of (server r))

  shown_after-append :
      (rs : List UnusedRequest) (r : UnusedRequest) (c : List Text × ℕ)
      → shown_after (rs ++ r ∷ []) c ≡ content_of (server r)
  unfolding shown_after
  shown_after-append [] r c = refl
  shown_after-append (x ∷ rs) r c = shown_after-append rs r (content_of (server x))

  abbrev Promised : DetailPage → Text → Type 0
  Promised s id =
      shown_after s.pending (s.items, s.total)
      ≡ content_of (server (request id s.page s.detail_search))

  abbrev Current : DetailPage → Type 0
  Current s =
      s.timer ≡ none → (id : Text) → as_truthy s.selected_subnet_id ≡ some id → Promised s id

  record Inv (s : DetailPage) : Type 0 where
    timed : Timed s
    current : Current s

  Inv-fetch_for :
      (o : Option Text) (s : DetailPage)
      → as_truthy s.selected_subnet_id ≡ o
      → Timed s
      → Inv (fetch_for o s)
  unfolding fetch_unused
  Inv-fetch_for none s e h = record { timed = h; current = λ idle id f. absurd (ground arith) }
  Inv-fetch_for (some j) s e h = record {
    timed = h;
    current = λ idle id f.
        let same : id ≡ j = ground arith in
        rw same
          (shown_after-append s.pending (request j s.page s.detail_search) (s.items, s.total));
  }

  Inv-page_effect :
      (old s : DetailPage)
      → Timed s
      → (nat_beq old.page s.page ≡ true
          → same_id old.selected_subnet_id s.selected_subnet_id ≡ true
          → Current s)
      → Inv (page_effect old s)
  unfolding page_effect
  Inv-page_effect old s h k =
      elim (Bool-cases
        (same_id old.selected_subnet_id s.selected_subnet_id && nat_beq old.page s.page)) [
          | inl e ↦ rw e (record { timed = h; current = k (ground arith) (ground arith) })
          | inr e ↦ rw e (Inv-fetch_for (as_truthy s.selected_subnet_id) s refl h)
        ]

  timed-armed :
      (o : Option Text) (q : Text) (id p : Text)
      → armed o q ≡ some (id, p)
      → (p ≡ q) × (o ≡ some id)
  timed-armed none q id p e = absurd (ground arith)
  timed-armed (some j) q id p e = (ground arith, ground arith)

  not_armed : (o : Option Text) (q id : Text) → armed o q ≡ none → o ≡ some id → ⊥
  not_armed none q id e f = absurd (ground arith)
  not_armed (some j) q id e f = absurd (ground arith)

  Inv-armed :
      (s : DetailPage)
      → Inv (record s { timer = armed (as_truthy s.selected_subnet_id) s.detail_search })
  Inv-armed s = record {
    timed = λ id p e.
        let same = timed-armed (as_truthy s.selected_subnet_id) s.detail_search id p e in
        (same.0, λ j f. ground (arith, same.1));
    current =
        λ idle id f. absurd (not_armed (as_truthy s.selected_subnet_id) s.detail_search id idle f);
  }

  detail_search-fetch_for :
      (o : Option Text) (s : DetailPage) → (fetch_for o s).detail_search ≡ s.detail_search
  unfolding fetch_unused
  detail_search-fetch_for none s = refl
  detail_search-fetch_for (some j) s = refl

  detail_search-page_effect :
      (old s : DetailPage) → (page_effect old s).detail_search ≡ s.detail_search
  unfolding page_effect
  detail_search-page_effect old s =
      elim (Bool-cases
        (same_id old.selected_subnet_id s.selected_subnet_id && nat_beq old.page s.page)) [
          | inl e ↦ rw e refl
          | inr e ↦ rw e (detail_search-fetch_for (as_truthy s.selected_subnet_id) s)
        ]

  -- The effects of a render keep the invariant where nothing they look at has changed.
  Inv-detail_effects :
      (old s : DetailPage)
      → (old.detail_search ≡ s.detail_search → Timed s)
      → (old.detail_search ≡ s.detail_search
          → old.page ≡ s.page
          → same_id old.selected_subnet_id s.selected_subnet_id ≡ true
          → Current s)
      → Inv (detail_effects old s)
  unfolding detail_effects search_effect
  Inv-detail_effects old s h k =
      elim (Bool-cases (text_beq old.detail_search (page_effect old s).detail_search)) [
        | inl e ↦
            let same : old.detail_search ≡ s.detail_search =
              (text_beq_iff old.detail_search (page_effect old s).detail_search).0 e
              ∙ detail_search-page_effect old s in
            rw e (Inv-page_effect old s (h same) (λ p. k same ((nat_beq_iff old.page s.page).0 p)))
        | inr e ↦ rw e (Inv-armed (page_effect old s))
      ]

  Inv-settle_unused :
      (a : Response UnusedIpsResponse) (rest : List UnusedRequest) (s : DetailPage)
      → Timed s
      → (s.timer ≡ none
          → (id : Text) → as_truthy s.selected_subnet_id ≡ some id
          → shown_after rest (content_of a)
            ≡ content_of (server (request id s.page s.detail_search)))
      → Inv (settle_unused a (record s { pending = rest }))
  unfolding settle_unused
  Inv-settle_unused (resolved res) rest s h k = record { timed = h; current = k }
  Inv-settle_unused (rejected e) rest s h k = record { timed = h; current = k }

  Inv-Step : {s t : DetailPage} → Step server s t → Inv s → Inv t
  unfolding open_subnet back_to_summary type_search choose_page fire_search check_ip refetch_updated
      fetch_unused shown_after
  Inv-Step {s} (opened id e idle) h =
      Inv-detail_effects s _ (λ same i p f. absurd (ground arith)) (λ a b c. absurd (ground arith))
  Inv-Step {s} went_back h =
      Inv-detail_effects s _
        (λ same i p f. ((h.timed i p f).0 ∙ same, λ j g. absurd (ground arith)))
        (λ a b c idle id f. absurd (ground arith))
  Inv-Step {s} (typed q) h =
      Inv-detail_effects s _ (λ same. rw (sym same) h.timed) (λ same b c. rw (sym same) h.current)
  Inv-Step {s} (chosen p) h =
      Inv-detail_effects s _ (λ same. h.timed) (λ a same c. rw (sym same) h.current)
  Inv-Step {s} (fired i q e) h =
      Inv-detail_effects s _ (λ same j p f. absurd (ground arith))
        (λ a b c idle j f.
          let kept = h.timed i q e in
          rw (kept.1 j f, sym kept.0)
            (shown_after-append s.pending (request i 1 q) (s.items, s.total)))
  Inv-Step {s} (checked ip) h = record { timed = h.timed; current = h.current }
  Inv-Step {s} updated h = Inv-fetch_for (as_truthy s.selected_subnet_id) s refl h.timed
  Inv-Step {s} (answered r rest e) h =
      Inv-settle_unused (server r) rest s h.timed
        (λ idle id f. ap (λ rs. shown_after rs (s.items, s.total)) (sym e) ∙ h.current idle id f)

  Inv-mounted : (subnet : Option Text) → Inv (mounted subnet)
  unfolding mounted
  Inv-mounted subnet = Inv-fetch_for (as_truthy subnet) _ refl (λ id q e.
      let same = timed-armed (as_truthy subnet) [] id q e in
      (same.0, λ j f. ground (arith, same.1)))

  Reach-Inv : {s : DetailPage} → Reach server s → Inv s
  Reach-Inv (start subnet) = Inv-mounted subnet
  Reach-Inv (later r step) = Inv-Step step (Reach-Inv r)

  -- In every state that the page can reach, where a subnet is open, no timer waits and no request is
  -- under way, the addresses and the total that are shown are those that the server answers for this
  -- subnet, the page of the table and the search in the field (none and zero where it rejects).
  -- Requests are answered in the order in which they were sent, and a subnet is opened only where no
  -- timer is left from the one before.
  pub shown-current :
      {s : DetailPage} (id : Text)
      → Reach server s
      → s.timer ≡ none
      → s.pending ≡ []
      → as_truthy s.selected_subnet_id ≡ some id
      → (s.items, s.total) ≡ content_of (server (request id s.page s.detail_search))
  unfolding shown_after
  shown-current {s} id reached idle done open_id =
      ap (λ rs. shown_after rs (s.items, s.total)) (sym done)
      ∙ (Reach-Inv reached).current idle id open_id
