-- ===== src/Servers/Secure/Laws.antt =====
-- Secured routes and replies of `RS256SecureServer` (rs256-secure-server.hpp).
use store_cpp.Base.{
  suc, ◌≡◌, ◌≢◌, refl, ap, ◌∙◌, subst, Bool, true, false, Option, none, some, some_injective, Str,
  List, [], ◌∷◌, All,
}
use store_cpp.Base.Assoc.{Assoc}
use store_cpp.Library.Json.{JsonLib}
use store_cpp.WebToken.{JwtLib}
use store_cpp.Servers.Session.{SessionT, fresh, from_json}
use store_cpp.Servers.Http.{
  EvHttp, EvHttpLaws, Command, get, post, head, put, delete, options, reply_ok-sent,
}
use store_cpp.Servers.Secure.{
  Server, get_session, if_get, preflight_or, is_authenticated, try_match, found_or, preflight,
  run_secured, answer, unsecured_or, serve, process_request,
}

module _ (H : EvHttp) (T : JwtLib) (J : JsonLib) where
  open H use {World, Request}

  -- No token of the request is accepted.
  abbrev pub Refused : Server H T J → Request → Type 0
  Refused s req = (j : J.Json) → is_authenticated H T J s req J.null ≢ some (true, j)

  answer-Refused :
      (s t : Server H T J) (req : Request) (r : Option (Bool × J.Json)) (w : World)
      → ((j : J.Json) → r ≢ some (true, j))
      → answer H T J s req r w ≡ answer H T J t req r w
  unfolding answer
  answer-Refused s t req none w h = refl
  answer-Refused s t req (some (false, j)) w h = refl
  answer-Refused s t req (some (true, j)) w h = absurd (h j refl)

  serve-Refused :
      (s : Server H T J) (routes : Assoc (Request → List Str → SessionT → World → Option World))
      (req : Request) (w : World)
      → Refused s req
      → serve H T J s req w ≡ serve H T J (record s { routes = routes }) req w
  unfolding serve
  serve-Refused s routes req w h =
      ap
        (λ a.
          unsecured_or H T J req (try_match H T J s.regex_search s.unsecure_routes (H.uri req)) a w)
        (answer-Refused s (record s { routes = routes }) req (is_authenticated H T J s req J.null) w
          h)

  -- A request without an accepted token gets the same answer whatever the secured routes are, so
  -- none of them runs.
  pub process_request-Refused :
      (s : Server H T J) (routes : Assoc (Request → List Str → SessionT → World → Option World))
      (req : Request) (w : World)
      → Refused s req
      → process_request H T J s req w ≡ process_request H T J (record s { routes = routes }) req w
  unfolding process_request
  process_request-Refused s routes req w h =
      ap (preflight_or H T J (H.command req) (preflight H T J req w))
        (serve-Refused s routes req w h)

  module _ (laws : EvHttpLaws H) where
    open laws use {sent, sent-add_header, sent-send_reply, sent-send_error}

    -- A result that has sent one reply more.
    abbrev pub Answered : World → Option World → Type 0
    Answered w r = (v : World) → r ≡ some v → sent v ≡ suc (sent w)

    abbrev pub Answers : (Request → List Str → World → Option World) → Type 0
    Answers handler =
        (req : Request) (segments : List Str) (w : World) → Answered w (handler req segments w)

    abbrev pub SecuredAnswers : (Request → List Str → SessionT → World → Option World) → Type 0
    SecuredAnswers handler =
        (req : Request) (segments : List Str) (sess : SessionT) (w : World)
        → Answered w (handler req segments sess w)

    abbrev once : (w u v : World) → sent u ≡ suc (sent w) → some u ≡ some v → sent v ≡ suc (sent w)
    once w u v e h = subst (λ x. sent x ≡ suc (sent w)) (some_injective h) e

    preflight-sent : (req : Request) (w : World) → sent (preflight H T J req w) ≡ suc (sent w)
    unfolding preflight
    preflight-sent req w =
        sent-send_reply _ _ _ _ _
        ∙ ap suc (
            sent-add_header _ _ _ _
            ∙ sent-add_header _ _ _ _
            ∙ sent-add_header _ _ _ _
            ∙ sent-add_header _ _ _ _
            ∙ sent-add_header _ _ _ _
            ∙ sent-add_header _ _ _ _)

    found_or-P :
        {F : Type 0} (P : F → Type 0) (m : Option (List Str)) (h handler : F) (segments : List Str)
        (rest : Option (F × List Str))
        → P h
        → (rest ≡ some (handler, segments) → P handler)
        → found_or H T J m (λ s. some (h, s)) rest ≡ some (handler, segments)
        → P handler
    unfolding found_or
    found_or-P P none h handler segments rest ph later e = later e
    found_or-P P (some s) h handler segments rest ph later e =
        subst P (ap (λ q. q.0) (some_injective e)) ph

    try_match-All :
        {F : Type 0} (P : F → Type 0) (regex : Str → Str → Option (List Str)) (table : Assoc F)
        (uri : Str) (handler : F) (segments : List Str)
        → All (λ r. P r.1) table
        → try_match H T J regex table uri ≡ some (handler, segments)
        → P handler
    unfolding try_match
    try_match-All P regex [] uri handler segments hs = λ e. cc
    try_match-All P regex ((pattern, h) ∷ rest) uri handler segments (ph, hs) =
        found_or-P P (regex pattern uri) h handler segments _ ph
          (try_match-All P regex rest uri handler segments hs)

    run_secured-Answered :
        (req : Request)
        (m : Option ((Request → List Str → SessionT → World → Option World) × List Str))
        (sess : Option SessionT) (w : World)
        → ((h : Request → List Str → SessionT → World → Option World) (s : List Str)
            → m ≡ some (h, s)
            → SecuredAnswers h)
        → Answered w (run_secured H T J req m sess w)
    unfolding run_secured
    run_secured-Answered req none none w hs v e = cc
    run_secured-Answered req none (some s) w hs v e = once w _ v (sent-send_error _ _ _ _) e
    run_secured-Answered req (some m) none w hs v e = cc
    run_secured-Answered req (some (h, segments)) (some s) w hs v e =
        hs h segments refl req segments s w v e

    answer-Answered :
        (s : Server H T J) (req : Request) (r : Option (Bool × J.Json)) (w : World)
        → All (λ x. SecuredAnswers x.1) s.routes
        → Answered w (answer H T J s req r w)
    unfolding answer
    answer-Answered s req none w hs = λ v e. cc
    answer-Answered s req (some (false, j)) w hs = λ v e. once w _ v (sent-send_error _ _ _ _) e
    answer-Answered s req (some (true, j)) w hs =
        run_secured-Answered req (try_match H T J s.regex_search s.routes (H.uri req))
          (from_json J j fresh) w
          (λ h segments.
            try_match-All SecuredAnswers s.regex_search s.routes (H.uri req) h segments hs)

    unsecured_or-Answered :
        (req : Request) (m : Option ((Request → List Str → World → Option World) × List Str))
        (rest : Option World) (w : World)
        → ((h : Request → List Str → World → Option World) (s : List Str)
            → m ≡ some (h, s)
            → Answers h)
        → Answered w rest
        → Answered w (unsecured_or H T J req m rest w)
    unfolding unsecured_or
    unsecured_or-Answered req none rest w hs a = a
    unsecured_or-Answered req (some (h, segments)) rest w hs a = hs h segments refl req segments w

    serve-Answered :
        (s : Server H T J) (req : Request) (w : World)
        → All (λ x. Answers x.1) s.unsecure_routes
        → All (λ x. SecuredAnswers x.1) s.routes
        → Answered w (serve H T J s req w)
    unfolding serve
    serve-Answered s req w us hs =
        unsecured_or-Answered req (try_match H T J s.regex_search s.unsecure_routes (H.uri req)) _ w
          (λ h segments.
            try_match-All Answers s.regex_search s.unsecure_routes (H.uri req) h segments us)
          (answer-Answered s req (is_authenticated H T J s req J.null) w hs)

    preflight_or-Answered :
        (c : Command) (u : World) (rest : Option World) (w : World)
        → sent u ≡ suc (sent w)
        → Answered w rest
        → Answered w (preflight_or H T J c u rest)
    unfolding preflight_or
    preflight_or-Answered options u rest w e a = λ v h. once w u v e h
    preflight_or-Answered get u rest w e a = a
    preflight_or-Answered post u rest w e a = a
    preflight_or-Answered head u rest w e a = a
    preflight_or-Answered put u rest w e a = a
    preflight_or-Answered delete u rest w e a = a

    if_get-sent :
        (c : Command) (u v w : World)
        → sent u ≡ suc (sent w)
        → sent v ≡ suc (sent w)
        → sent (if_get H T J c u v) ≡ suc (sent w)
    unfolding if_get
    if_get-sent get u v w e f = e
    if_get-sent post u v w e f = f
    if_get-sent head u v w e f = f
    if_get-sent put u v w e f = f
    if_get-sent delete u v w e f = f
    if_get-sent options u v w e f = f

    -- The session route sends one reply, whatever the method.
    pub get_session-Answers : (dump : J.Json → Str) → SecuredAnswers (get_session H T J dump)
    unfolding get_session
    get_session-Answers dump req segments sess w v e =
        once w _ v
          (if_get-sent (H.command req) _ _ w (reply_ok-sent H laws _ _ _ _)
            (sent-send_error _ _ _ _))
          e

    -- If every handler sends one reply when it returns, so does the server: the preflight request,
    -- the two kinds of route, the refused token and the unknown path all send exactly one.
    pub process_request-Answered :
        (s : Server H T J) (req : Request) (w v : World)
        → All (λ x. Answers x.1) s.unsecure_routes
        → All (λ x. SecuredAnswers x.1) s.routes
        → process_request H T J s req w ≡ some v
        → sent v ≡ suc (sent w)
    unfolding process_request
    process_request-Answered s req w v us hs =
        preflight_or-Answered (H.command req) _ _ w (preflight-sent req w)
          (serve-Answered s req w us hs) v
