-- ===== src/Gateway/Owners.antt =====
-- src/gateway/service.rs: a started gateway knows for each tool the one upstream that lists it.
use r2r_jev.Prelude.{
  ℕ, suc, ◌≡◌, ◌↔◌, ◌⊎◌, inl, refl, sym, ap, ◌∙◌, subst, arith, String, List, [], ◌∷◌, Option, none,
  some, Bool, true, ◌&&◌, Result, ok, err, panic, >>=-eq-ok, ok-injective, ◌==◌, eq_iff,
  if◌then◌else◌,
}
use r2r_jev.Prelude.Assoc.{text_key, lookup, insert, lookup-insert}
use r2r_jev.Gateway.{is_control_plane_tool, is_at, owner_of}
use r2r_jev.Gateway.Start.{
  UpstreamConfig, GatewayConfig, Processes, Upstream, Merged, Running, spawned, initialized,
  connect_all, listed, merge_tool, merge_tools, merge_all, start,
}

-- The tools that upstreams list, each with the position of its upstream; the last one first.
abbrev pub Listing : Type 0
Listing = List (ℕ × String)

abbrev pub Lists : ℕ → String → Listing → Type 0
Lists i tool [] = ⊥
Lists i tool ((j, name) ∷ rest) = ((j ≡ i) × (name ≡ tool)) ⊎ Lists i tool rest

abbrev pub add_tools : ℕ → List String → Listing → Listing
add_tools idx [] seen = seen
add_tools idx (tool ∷ rest) seen = add_tools idx rest ((idx, tool) ∷ seen)

abbrev tools_or_none : Result (List String) → List String
tools_or_none (ok tools) = tools
tools_or_none (err e) = []
tools_or_none panic = []

-- The owners are exactly what was listed.
abbrev Owned : Merged → Listing → Type 0
Owned merged seen =
    (i : ℕ) (tool : String) → (lookup tool merged.owners ≡ some i) ↔ Lists i tool seen

insert-Lists :
    (idx : ℕ) (tool : String) (i : ℕ) (name : String) (held after : Option ℕ) (seen : Type 0)
    → (tool ≡ name → held ≡ none)
    → after ≡ (if tool == name then some idx else held)
    → (held ≡ some i) ↔ seen
    → (after ≡ some i) ↔ (((idx ≡ i) × (tool ≡ name)) ⊎ seen)
insert-Lists idx tool i name held after seen fresh e owned = ground (arith, eq_iff tool name)

is_at-some :
    (plane owner : Option ℕ)
    → is_at plane owner ≡ true
    → (i : ℕ) × (plane ≡ some i) × (owner ≡ some i)
is_at-some none owner e = absurd (cc e)
is_at-some (some cp) none e = absurd (cc e)
is_at-some (some cp) (some owner) e = (cp, refl, ap some (ground arith))

and_right : (a b : Bool) → a && b ≡ true → b ≡ true
and_right a b e = ground arith

marked_now :
    (idx i : ℕ) (up : UpstreamConfig) (held : Option ℕ) (later : Type 0)
    → ((if up.control_plane then some idx else held) ≡ some i) ⊎ later
    → (held ≡ some i) ⊎ (((idx ≡ i) × (up.control_plane ≡ true)) ⊎ later)
marked_now idx i up held later e = ground arith

only_owner :
    (j i : ℕ) (owner : Option ℕ) (lists : Type 0)
    → owner ≡ some i
    → (owner ≡ some j) ↔ lists
    → lists ↔ (j ≡ i)
only_owner j i owner lists e owned = ground arith

only_later : (later : Type 0) {i : ℕ} → ((none ≡ some i) ⊎ later) → later
only_later later e = ground arith

empty-Owned : Owned (record { owners = []; catalog = [] }) []
unfolding lookup
empty-Owned i tool = ground arith

module _ {T C : Type 0} (processes : Processes T C) where
  open processes use {list_all_tools}

  abbrev pub listing_from : ℕ → List (Upstream C) → Listing → Listing
  listing_from idx [] seen = seen
  listing_from idx (up ∷ rest) seen =
      listing_from (suc idx) rest (add_tools idx (tools_or_none (list_all_tools up.client)) seen)

  merge_tool-Owned :
      (idx : ℕ) (tool : String) (merged next : Merged) (held : Option ℕ) (seen : Listing)
      → lookup tool merged.owners ≡ held
      → merge_tool processes idx tool merged held ≡ ok next
      → Owned merged seen
      → Owned next ((idx, tool) ∷ seen)
  merge_tool-Owned idx tool merged next none seen fresh e owned = λ i name.
      let owners : insert tool idx merged.owners ≡ next.owners =
        ap (λ (m : Merged). m.owners) (ok-injective e) in
      subst (λ o. (lookup name o ≡ some i) ↔ Lists i name ((idx, tool) ∷ seen)) owners
        (insert-Lists idx tool i name (lookup name merged.owners) _ (Lists i name seen)
          (λ same. ap (λ t. lookup t merged.owners) (sym same) ∙ fresh)
          (lookup-insert tool name idx merged.owners) (owned i name))
  merge_tool-Owned idx tool merged next (some other) seen fresh e owned = absurd (cc e)

  merge_tools-Owned :
      (idx : ℕ) (tools : List String) (merged next : Merged) (seen : Listing)
      → merge_tools processes idx tools merged ≡ ok next
      → Owned merged seen
      → Owned next (add_tools idx tools seen)
  unfolding merge_tools
  merge_tools-Owned idx [] merged next seen e owned =
      subst (λ (m : Merged). Owned m seen) (ok-injective e) owned
  merge_tools-Owned idx (tool ∷ rest) merged next seen e owned =
      let held = lookup tool merged.owners in
      let (one, added, e) = >>=-eq-ok (merge_tool processes idx tool merged held) _ e in
      merge_tools-Owned idx rest one next ((idx, tool) ∷ seen) e
        (merge_tool-Owned idx tool merged one held seen refl added owned)

  listed-ok :
      (up : Upstream C) (answer : Result (List String)) {tools : List String}
      → listed processes up answer ≡ ok tools
      → tools_or_none answer ≡ tools
  listed-ok up (ok tools) e = ok-injective e
  listed-ok up (err message) e = absurd (cc e)
  listed-ok up panic e = absurd (cc e)

  merge_all-Owned :
      (idx : ℕ) (upstreams : List (Upstream C)) (merged next : Merged) (seen : Listing)
      → merge_all processes idx upstreams merged ≡ ok next
      → Owned merged seen
      → Owned next (listing_from idx upstreams seen)
  unfolding merge_all
  merge_all-Owned idx [] merged next seen e owned =
      subst (λ (m : Merged). Owned m seen) (ok-injective e) owned
  merge_all-Owned idx (up ∷ rest) merged next seen e owned =
      let (tools, asked, e) = >>=-eq-ok (listed processes up (list_all_tools up.client)) _ e in
      let (one, added, e) = >>=-eq-ok (merge_tools processes idx tools merged) _ e in
      merge_all-Owned (suc idx) rest one next
        (add_tools idx (tools_or_none (list_all_tools up.client)) seen) e
        (subst (λ ts. Owned one (add_tools idx ts seen)) (sym (listed-ok up _ asked))
          (merge_tools-Owned idx tools merged one seen added owned))

  -- The upstream at a position, counted from `idx`, is marked as the control plane.
  abbrev pub MarkedFrom : ℕ → ℕ → List UpstreamConfig → Type 0
  MarkedFrom idx i [] = ⊥
  MarkedFrom idx i (up ∷ rest) =
      ((idx ≡ i) × (up.control_plane ≡ true)) ⊎ MarkedFrom (suc idx) i rest

  connect_all-Marked :
      (timeout idx : ℕ) (held : Option ℕ) (ups : List UpstreamConfig) (clients : List (Upstream C))
      (i : ℕ)
      → connect_all processes timeout idx held ups ≡ ok (clients, some i)
      → (held ≡ some i) ⊎ MarkedFrom idx i ups
  unfolding connect_all
  connect_all-Marked timeout idx held [] clients i e =
      inl (ap (λ (p : List (Upstream C) × Option ℕ). p.1) (ok-injective e))
  connect_all-Marked timeout idx held (up ∷ rest) clients i e =
      let (transport, started, e) = >>=-eq-ok (spawned processes up (processes.spawn up)) _ e in
      let (client, ready, e) =
        >>=-eq-ok (initialized processes timeout up (processes.serve timeout transport)) _ e in
      let now = if up.control_plane then some idx else held in
      let (others, connected, e) =
        >>=-eq-ok (connect_all processes timeout (suc idx) now rest) _ e in
      let plane : others.1 ≡ some i =
        ap (λ (p : List (Upstream C) × Option ℕ). p.1) (ok-injective e) in
      let later =
        connect_all-Marked timeout (suc idx) now rest others.0 i
          (connected ∙ ap (λ o. ok (others.0, o)) plane) in
      marked_now idx i up held (MarkedFrom (suc idx) i rest) later

  abbrev pub listing : Running C → Listing
  listing running = listing_from 0 running.upstreams []

  -- A tool that is served without asking the control plane.
  pub record Ungated (config : GatewayConfig) (running : Running C) (tool : String) : Type 0 where
    pub position : ℕ
    pub plane : running.server.control_plane ≡ some position
    pub marked : MarkedFrom 0 position config.upstreams
    pub only : (i : ℕ) → Lists i tool (listing running) ↔ (i ≡ position)

  start-Owned :
      (config : GatewayConfig) (running : Running C)
      → start processes config ≡ ok running
      → ((i : ℕ) (tool : String)
          → (lookup tool running.server.owners ≡ some i) ↔ Lists i tool (listing running))
        × ((i : ℕ) → running.server.control_plane ≡ some i → MarkedFrom 0 i config.upstreams)
  unfolding start
  start-Owned config running e =
      let (connections, connected, e) =
        >>=-eq-ok (connect_all processes config.init_timeout_ms 0 none config.upstreams) _ e in
      let (merged, added, e) =
        >>=-eq-ok (merge_all processes 0 connections.0 (record { owners = []; catalog = [] })) _
          e in
      subst
        (λ (r : Running C).
          ((i : ℕ) (tool : String)
            → (lookup tool r.server.owners ≡ some i) ↔ Lists i tool (listing r))
          × ((i : ℕ) → r.server.control_plane ≡ some i → MarkedFrom 0 i config.upstreams))
        (ok-injective e)
        (
          merge_all-Owned 0 connections.0 (record { owners = []; catalog = [] }) merged [] added
              empty-Owned,
          λ i plane. only_later (MarkedFrom 0 i config.upstreams) (
              connect_all-Marked config.init_timeout_ms 0 none config.upstreams connections.0 i
                (connected ∙ ap (λ o. ok (connections.0, o)) plane)),
        )

  -- In a gateway that started, a tool passes without the control plane only if it is listed by the
  -- upstream that the configuration marks as the control plane, and by no other upstream.
  pub start-Ungated :
      (config : GatewayConfig) (running : Running C) (tool : String)
      → start processes config ≡ ok running
      → is_control_plane_tool running.server tool ≡ true
      → Ungated config running tool
  unfolding is_control_plane_tool
  start-Ungated config running tool e passes =
      let (owned, marked) = start-Owned config running e in
      let (i, plane, owner) =
        is_at-some running.server.control_plane (owner_of running.server tool)
          (and_right _ _ passes) in
      record {
        position = i;
        plane = plane;
        marked = marked i plane;
        only = λ j. only_owner j i (lookup tool running.server.owners) _ owner (owned j tool);
      }
