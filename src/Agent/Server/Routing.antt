-- ===== src/Agent/Server/Routing.antt =====
-- Commands to agents and the messages that answer them.
use podman_manager.Prelude.{
  String, ◌≡◌, refl, ap, ◌∙◌, Bool, true, false, none, some, List, [], ◌∷◌, ◌++◌, ◌==◌, ◌⊎◌,
  eq_refl, inl, inr, Option-cases, Bool-cases, arith, ok, err, lookup, put, delete, lookup-put,
  lookup-delete, if◌then◌else◌, ltb,
}
use podman_manager.Agent.Registry
use podman_manager.Agent.Registry.{AgentInfo}
use podman_manager.Agent.Messages.{AgentMessage, ManagerMessage, request_id, from_agent_message}
use podman_manager.Agent.Server.{
  Server, Error, not_connected, already_pending, send_failed, length, Channel, offer,
  route_response, begin_command, end_command,
}

-- What `begin_command` does on each branch.
pub begin_command_cases :
    (agent_id : String) (sent : Bool) (s : Server)
    → ((e : Error) × (begin_command agent_id sent s ≡ (s, err e)))
      ⊎ ((sent ≡ false)
          × (lookup agent_id s.commands ≡ none)
          × (begin_command agent_id sent s ≡ (
            record s {
              commands =
                  delete agent_id (put agent_id (record { buffer = []; size = 1 }) s.commands);
            },
            err send_failed,
          )))
      ⊎ ((sent ≡ true)
          × (lookup agent_id s.commands ≡ none)
          × (begin_command agent_id sent s ≡ (
            record s { commands = put agent_id (record { buffer = []; size = 1 }) s.commands },
            ok tt,
          )))
unfolding begin_command
begin_command_cases agent_id sent s = elim (Option-cases (Registry.get agent_id s.registry)) [
  | inl e ↦ inl (not_connected, ground arith)
  | inr (a, e) ↦ elim (Option-cases a.stream) [
    | inl f ↦ inl (not_connected, ground arith)
    | inr (st, f) ↦ elim (Option-cases (lookup agent_id s.commands)) [
      | inr (ch, g) ↦ inl (already_pending, ground arith)
      | inl g ↦ elim (Bool-cases sent) [
        | inl t ↦ inr (inr (t, g, ground arith))
        | inr t ↦ inr (inl (t, g, ground arith))
      ]
    ]
  ]
]

-- While a command to an agent waits, a second command to it is refused and changes nothing.
pub begin_command_pending :
    (agent_id : String) (sent : Bool) (s : Server) (ch : Channel AgentMessage)
    → lookup agent_id s.commands ≡ some ch
    → (e : Error) × (begin_command agent_id sent s ≡ (s, err e))
begin_command_pending agent_id sent s ch h = elim (begin_command_cases agent_id sent s) [
  | inl r ↦ r
  | inr (inl (_, g, _)) ↦ absurd (cc (h, g))
  | inr (inr (_, g, _)) ↦ absurd (cc (h, g))
]

module _ (agent_id : String) (msg : AgentMessage) (s : Server) where
  -- the message reaches the pending command of the agent
  abbrev pub to_command : Server
  to_command = elim (lookup agent_id s.commands) [
    | none ↦ s
    | some ch ↦ record s { commands = put agent_id (offer msg ch) s.commands }
  ]

  -- the request that the message names has no callback
  abbrev pub is_uncalled : Bool
  is_uncalled = elim (lookup (request_id msg) s.stream_callbacks) [
    | none ↦ true
    | some _ ↦ request_id msg == ""
  ]

  route_response_uncalled : is_uncalled ≡ true → route_response agent_id msg s ≡ to_command
  unfolding route_response
  route_response_uncalled h = elim (Option-cases (lookup (request_id msg) s.stream_callbacks)) [
    | inl e ↦ ground arith
    | inr (ch, e) ↦ ground arith
  ]

  route_response_called :
      (ch : Channel ManagerMessage) (m : ManagerMessage)
      → (request_id msg == "") ≡ false
      → lookup (request_id msg) s.stream_callbacks ≡ some ch
      → from_agent_message msg ≡ some m
      → route_response agent_id msg s
        ≡ record s { stream_callbacks = put (request_id msg) (offer m ch) s.stream_callbacks }
  unfolding route_response
  route_response_called ch m named held converted = ground arith

  pub route_response_cases :
      (route_response agent_id msg s ≡ to_command)
      ⊎ (route_response agent_id msg s ≡ s)
      ⊎ ((ch : Channel ManagerMessage) × (m : ManagerMessage) × (lookup
              (request_id msg)
              s.stream_callbacks
            ≡ some ch)
          × (route_response agent_id msg s ≡ record s {
            stream_callbacks = put (request_id msg) (offer m ch) s.stream_callbacks;
          }))
  route_response_cases = elim (Bool-cases is_uncalled) [
    | inl u ↦ inl (route_response_uncalled u)
    | inr u ↦ elim (Option-cases (lookup (request_id msg) s.stream_callbacks)) [
      | inl e ↦ absurd (ground arith)
      | inr (ch, e) ↦ elim (Option-cases (from_agent_message msg)) [
        | inl f ↦ inr (inl (unfold route_response in ground arith))
        | inr (m, f) ↦ inr (inr (ch, m, e, route_response_called ch m (ground arith) e f))
      ]
    ]
  ]

List-cases : {A : Type 0} (xs : List A) → (xs ≡ []) ⊎ ((x : A) × (ys : List A) × (xs ≡ x ∷ ys))
List-cases [] = inl refl
List-cases (x ∷ xs) = inr (x, xs, refl)

-- A command that still waits changes nothing, and one that ends is removed.
pub end_command_cases :
    (agent_id : String) (context_done : Bool) (s : Server)
    → (((end_command agent_id context_done s).1 ≡ none)
        × ((end_command agent_id context_done s).0 ≡ s))
      ⊎ ((end_command agent_id context_done s).0
          ≡ record s { commands = delete agent_id s.commands })
unfolding end_command
end_command_cases agent_id true s = inr refl
end_command_cases agent_id false s = elim (Option-cases (lookup agent_id s.commands)) [
  | inl e ↦ inl (ground arith, ground arith)
  | inr (ch, e) ↦ elim (List-cases ch.buffer) [
    | inl b ↦ inl (ground arith, ground arith)
    | inr (m, rest, b) ↦ inr (ground arith)
  ]
]

abbrev holding : String → List AgentMessage → Server → Server
holding agent_id buffer s = record s {
  commands = put agent_id (record { buffer = buffer; size = 1 }) s.commands;
}

module _ (agent_id : String) (s : Server) where
  route_response_pending :
      (msg : AgentMessage) (ch : Channel AgentMessage)
      → lookup agent_id s.commands ≡ some ch
      → is_uncalled agent_id msg s ≡ true
      → route_response agent_id msg s
        ≡ record s { commands = put agent_id (offer msg ch) s.commands }
  route_response_pending msg ch h u = route_response_uncalled agent_id msg s u ∙ ground arith

  lookup-holding :
      (buffer : List AgentMessage)
      → lookup agent_id (holding agent_id buffer s).commands
        ≡ some (record { buffer = buffer; size = 1 })
  lookup-holding buffer = rw (lookup-put, eq_refl) refl

  end_command_buffered :
      (msg : AgentMessage) (rest : List AgentMessage) (ch : Channel AgentMessage)
      (m : ManagerMessage)
      → lookup agent_id s.commands ≡ some ch
      → ch.buffer ≡ msg ∷ rest
      → from_agent_message msg ≡ some m
      → end_command agent_id false s
        ≡ (record s { commands = delete agent_id s.commands }, some (ok m))
  unfolding end_command
  end_command_buffered msg rest ch m h b c = ground arith

  end_command_empty :
      (ch : Channel AgentMessage)
      → lookup agent_id s.commands ≡ some ch
      → ch.buffer ≡ []
      → end_command agent_id false s ≡ (s, none)
  unfolding end_command
  end_command_empty ch h b = ground arith

route_response-holding :
    (agent_id : String) (s : Server) (msg : AgentMessage)
    → is_uncalled agent_id msg s ≡ true
    → route_response agent_id msg (holding agent_id [] s)
      ≡ holding agent_id (msg ∷ []) (holding agent_id [] s)
route_response-holding agent_id s msg u =
    unfold offer in
    route_response_pending agent_id (holding agent_id [] s) msg _ (lookup-holding agent_id s []) u

route_response-full :
    (agent_id : String) (s : Server) (msg later : AgentMessage)
    → is_uncalled agent_id later s ≡ true
    → route_response agent_id later (holding agent_id (msg ∷ []) s)
      ≡ holding agent_id (msg ∷ []) (holding agent_id (msg ∷ []) s)
route_response-full agent_id s msg later u =
    unfold offer in
    route_response_pending agent_id (holding agent_id (msg ∷ []) s) later _
      (lookup-holding agent_id s (msg ∷ [])) u

-- A command that was sent gets the first message of its agent that no callback takes, whatever
-- request that message names, and is then no longer pending; a later message changes nothing.
pub end_command-route_response :
    (agent_id : String) (s : Server) (msg later : AgentMessage) (m : ManagerMessage)
    → (begin_command agent_id true s).1 ≡ ok tt
    → is_uncalled agent_id msg s ≡ true
    → is_uncalled agent_id later s ≡ true
    → from_agent_message msg ≡ some m
    → let waiting = (begin_command agent_id true s).0 in
      let answered = route_response agent_id later (route_response agent_id msg waiting) in
      ((end_command agent_id false waiting).1 ≡ none)
      × ((end_command agent_id false answered).1 ≡ some (ok m))
      × (lookup agent_id (end_command agent_id false answered).0.commands ≡ none)
end_command-route_response agent_id s msg later m begun u u' converted =
    elim (begin_command_cases agent_id true s) [
      | inl (e, left) ↦ absurd (cc (begun, ap (λ p. p.1) left))
      | inr (inl (f, _, _)) ↦ absurd (cc f)
      | inr (inr (_, _, left)) ↦
          let first = route_response-holding agent_id s msg u in
          let both =
            ap (route_response agent_id later) first
            ∙ route_response-full agent_id (holding agent_id [] s) msg later u' in
          let t =
            holding agent_id (msg ∷ []) (holding agent_id (msg ∷ []) (holding agent_id [] s)) in
          let ends =
            end_command_buffered agent_id t msg [] _ m
              (lookup-holding agent_id (holding agent_id (msg ∷ []) (holding agent_id [] s))
                (msg ∷ []))
              refl converted in
          rw (left) (
            ap (λ p. p.1)
                (end_command_empty agent_id (holding agent_id [] s) _ (lookup-holding agent_id s [])
                  refl),
            rw (both, ends) refl,
            rw (both, ends) (rw (lookup-delete, eq_refl) refl),
          )
    ]

-- A message for which a callback waits goes to this callback if its channel has room and is dropped
-- otherwise, and changes neither another callback nor a pending command.
pub route_response_callback :
    (agent_id : String) (msg : AgentMessage) (s : Server) (ch : Channel ManagerMessage)
    (m : ManagerMessage) (other : String)
    → (request_id msg == "") ≡ false
    → lookup (request_id msg) s.stream_callbacks ≡ some ch
    → from_agent_message msg ≡ some m
    → let t = route_response agent_id msg s in
      (lookup (request_id msg) t.stream_callbacks
        ≡ some (
            if ltb (length ch.buffer) ch.size
            then record ch { buffer = ch.buffer ++ m ∷ [] }
            else ch))
      × ((request_id msg == other) ≡ true
          ⊎ (lookup other t.stream_callbacks ≡ lookup other s.stream_callbacks))
      × (t.commands ≡ s.commands)
unfolding offer
route_response_callback agent_id msg s ch m other named held converted =
    rw (route_response_called agent_id msg s ch m named held converted) (
      rw (lookup-put, eq_refl) refl,
      rw lookup-put
          (elim (Bool-cases (request_id msg == other)) [ inl e ↦ inl e | inr e ↦ inr (rw e refl) ]),
      refl,
    )

-- A message of one agent never reaches a command that waits for another agent.
pub route_response_other :
    (agent_id other : String) (msg : AgentMessage) (s : Server)
    → (agent_id == other) ≡ false
    → lookup other (route_response agent_id msg s).commands ≡ lookup other s.commands
unfolding route_response
route_response_other agent_id other msg s h = elim (route_response_cases agent_id msg s) [
  | inl e ↦ rw e (elim (Option-cases (lookup agent_id s.commands)) [
    | inl f ↦ ground arith
    | inr (ch, f) ↦ ground (arith, lookup-put agent_id other (offer msg ch) s.commands)
  ])
  | inr (inl e) ↦ rw e refl
  | inr (inr (_, _, _, e)) ↦ rw e refl
]
