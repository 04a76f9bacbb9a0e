-- ===== src/Http/Router/Guards.antt =====
-- Who reaches which handler.
use onyxchat.Base.{
  ℕ, zero, suc, str_eq, false, ◌≡◌, refl, Option, none, some, List, [], ◌∷◌, get_elem?,
}
use mathlib.Core.Path.{subst}
use onyxchat.Redis.{Redis}
use onyxchat.Http.{CurrentUser}
use onyxchat.Http.Gate.{Gate, GateHandler}
use onyxchat.Http.Router.{
  Endpoint, metrics, health, live, ready, register, login, refresh, logout, internal_get_push_token,
  web_socket, admin_list_invites, admin_create_invite, admin_reset_invite, Guard, auth, per_user,
  admin, ws_auth, Route, routes, Asked, Setup, guarded, serve_route,
}
use onyxchat.Http.Router.Admission.{
  Admits, none-Keeps, admin-Keeps, per_user-Keeps, auth-Admits, ws_auth-Admits,
}

-- Who a handler is for, by the column Auth of the tables in server/onyxchat-server/README.md, with the
-- probes and /metrics for everyone. Logout stands under JWT there, but its handler asks for no user.
pub data Audience : Type 0 where
  everyone one_service socket user administrator : Audience

abbrev pub audience : Endpoint → Audience
audience metrics = everyone
audience health = everyone
audience live = everyone
audience ready = everyone
audience register = everyone
audience login = everyone
audience refresh = everyone
audience logout = everyone
audience internal_get_push_token = one_service
audience web_socket = socket
audience admin_list_invites = administrator
audience admin_create_invite = administrator
audience admin_reset_invite = administrator
audience _ = user

-- Whom the middlewares of a route let through.
abbrev pub Right : {L : Type 0} → Setup L → Audience → CurrentUser → Type 0
Right c administrator u = u.username ≡ c.admin_username
Right c _ u = Unit

abbrev pub IsForUsers : Audience → Type 0
IsForUsers user = Unit
IsForUsers socket = Unit
IsForUsers administrator = Unit
IsForUsers _ = ⊥

abbrev guards_of : Audience → List Guard
guards_of administrator = auth ∷ per_user ∷ admin ∷ []
guards_of socket = ws_auth ∷ []
guards_of _ = auth ∷ per_user ∷ []

abbrev IsGuarded : Route → Type 0
IsGuarded r = IsForUsers (audience r.endpoint) → r.guards ≡ guards_of (audience r.endpoint)

abbrev AllGuarded : List Route → Type 0
AllGuarded [] = Unit
AllGuarded (r ∷ rs) = IsGuarded r × AllGuarded rs

IsGuarded-get_elem? :
    (rs : List Route) (i : ℕ) (r : Route) → AllGuarded rs → get_elem? rs i ≡ some r → IsGuarded r
IsGuarded-get_elem? [] i r h at = cc
IsGuarded-get_elem? (q ∷ rs) zero r (h, hs) at = let e : q ≡ r = cc in subst IsGuarded e h
IsGuarded-get_elem? (q ∷ rs) (suc i) r (h, hs) at = IsGuarded-get_elem? rs i r hs at

-- The table of routes puts the right middlewares around each handler for users.
routes-AllGuarded : AllGuarded routes
unfolding routes
routes-AllGuarded = (
  λ h. absurd h,
  (
    λ h. absurd h,
    (
      λ h. absurd h,
      (
        λ h. absurd h,
        (
          λ h. absurd h,
          (
            λ h. absurd h,
            (
              λ h. absurd h,
              (
                λ h. absurd h,
                (
                  λ h. absurd h,
                  (
                    λ h. refl,
                    (
                      λ h. refl,
                      (
                        λ h. refl,
                        (
                          λ h. refl,
                          (
                            λ h. refl,
                            (
                              λ h. refl,
                              (
                                λ h. refl,
                                (
                                  λ h. refl,
                                  (
                                    λ h. refl,
                                    (
                                      λ h. refl,
                                      (
                                        λ h. refl,
                                        (
                                          λ h. refl,
                                          (
                                            λ h. refl,
                                            (
                                              λ h. refl,
                                              (
                                                λ h. refl,
                                                (
                                                  λ h. refl,
                                                  (λ h. refl, (λ h. refl, (λ h. absurd h, tt))),
                                                ),
                                              ),
                                            ),
                                          ),
                                        ),
                                      ),
                                    ),
                                  ),
                                ),
                              ),
                            ),
                          ),
                        ),
                      ),
                    ),
                  ),
                ),
              ),
            ),
          ),
        ),
      ),
    ),
  ),
)

module _ {R : Redis} {L A : Type 0} (c : Setup L) (asked : Asked)
    (handlers : Endpoint → Option CurrentUser → GateHandler R L A) where
  guards_of-Admits :
      (a : Audience) (next : Option CurrentUser → GateHandler R L A) (g : Gate R L)
      → IsForUsers a
      → str_eq asked.method "OPTIONS" ≡ false
      → Admits next g (Right c a) (guarded c asked (guards_of a) next none g)
  guards_of-Admits user next g h method =
      auth-Admits c asked next _ _ g method
        (per_user-Keeps c asked next _ _ (none-Keeps c asked next))
  guards_of-Admits administrator next g h method =
      auth-Admits c asked next _ _ g method
        (per_user-Keeps c asked next _ _ (admin-Keeps c asked next))
  guards_of-Admits everyone next g h method = absurd h
  guards_of-Admits one_service next g h method = absurd h
  guards_of-Admits socket next g h method = ws_auth-Admits next g c asked

  -- A request on a route whose handler is for users, over a socket or not, with a method other than
  -- OPTIONS, reaches the handler only with the claims of an account that is not deleted, and on a route
  -- for the administrator only under the administrator's name; any other is refused. No middleware changes
  -- a table.
  pub serve_route-Admits :
      (i : ℕ) (r : Route) (g : Gate R L)
      → get_elem? routes i ≡ some r
      → IsForUsers (audience r.endpoint)
      → str_eq asked.method "OPTIONS" ≡ false
      → Admits
          (handlers r.endpoint)
          g
          (Right c (audience r.endpoint))
          (serve_route c asked handlers r g)
  unfolding serve_route
  serve_route-Admits i r g at h method =
      rw (IsGuarded-get_elem? routes i r routes-AllGuarded at h)
        (guards_of-Admits (audience r.endpoint) (handlers r.endpoint) g h method)
