-- ===== src/Lib.antt =====
-- A model of tearenv, an SSH gateway that gives authenticated identities access to services and
-- scales the workloads behind them up on demand and down when they are idle.
--
-- The parts of the program and how they interact. A client registers its public keys by HTTP
-- (internal/registration over api/v1alpha1 and internal/authn) or enrols by an invite, and presents
-- a token, a key or a short-lived certificate (internal/sshcert) to the gateway, which tries its
-- authentication providers in order (internal/authorization). An identity that is let in reaches
-- the services of the policy (internal/authorization/credentials.go, and the environments of
-- internal/blueprint), and each connection goes through the lifecycle gateway
-- (internal/server/lifecycle.go), which scales the workload of the service.
--
-- The files:
--   Common: types, tests and lemmas that the parts share. `Result` is a value and an error, a `Text`
--     the bytes of a Go string, a `Map` an association list.
--   Server.Lifecycle: one runtime of lifecycle.go with its timers and connections. `open_slot` is
--     Open, `release` and `close` are release and trackedConnection.Close, `expire` is a timer that
--     fires, `run_callback` the function given to time.AfterFunc, `shutdown_slot` a round of
--     Shutdown. What the scaler and the network answer is an argument, and calls of the scaler and
--     of the metrics are events of a trace.
--   Server.Gateway: the map of runtimes, and `Step`, in which any of these critical sections runs
--     next. The mutex of a runtime makes each of them one step.
--   Server.Session: one connection of server.go, service.go, enrollment.go and
--     authentication_expiry.go with its handlers and its context, which keep a log of the calls to
--     the providers; Server.Session.Requests has the handlers of requests and channels, and
--     Server.Session.Steps is what a client and the time can do to a connection.
--   Authorization.Services, Authorization.Document, Authorization.Credentials: validateService,
--     parseCredentials and the operations of credentials.go. `File` is the credentials file on disk.
--     Authorization.Listing is the sorted listing of services.
--   Authorization.Providers, Authorization.PublicKeys, Authorization.Certificates: authorization.go,
--     public_keys.go and certificates.go.
--   Sshcert: internal/sshcert/issuer.go.
--   Authn, Authn.Configuration, Authn.Oidc: internal/authn/authn.go and static.go, configuration.go
--     and oidc.go.
--   Api: api/v1alpha1/userregistration.go: names, validation and acceptance.
--   Registration.Store, Registration.Requests: the files and the operations of
--     internal/registration/store.go.
--   Registration.Http, Registration.Exchange: the handlers of internal/registration/http.go and
--     token_exchange.go, whose replies are statuses with what they carry.
--   Blueprint.Slug, Blueprint.Validation, Blueprint.Instantiation: slugIdentity, Validate and
--     Instantiate of internal/blueprint/blueprint.go, over the JSON values of Blueprint.Values, with
--     the placeholders of Blueprint.Templates. Blueprint.Default: Default, Marshal and Load.
--   Environment: internal/environment/manager.go, which instantiates blueprints.
--   Kube.Scaler, Kube.Apply, Kube.AuthorizedKeys: internal/kube/scaler.go, blueprint.go and
--     authorized_keys.go over an abstract API server.
--   Client.Exchange, Client.Registration: ExchangeSSHCertificate of internal/client/authentication.go
--     and SubmitUserRegistration of registration.go.
--   Profile: internal/profile/profile.go.
--
-- Packages that are not in the repository are parameters: Authorization.Library (crypto/sha256,
-- encoding/hex, net, strconv, time), Authorization.Ssh and Api.Library (golang.org/x/crypto/ssh,
-- k8s.io/apimachinery, net/url), Blueprint.Library (the same with crypto/sha256 and time),
-- Authn.Oidc.Decoders (encoding/base64, encoding/json), Kube.Retry (k8s.io/client-go/util/retry),
-- and arguments of single definitions, with the laws of their documentation that are used. The
-- modules named Sample instantiate them by concrete functions, at which the theorems are applied.
--
-- Representation. Documents that are stored as JSON or YAML are represented by what they decode to,
-- and their texts are taken to be valid UTF-8; times that are stored in seconds lose the rest. A
-- write of a file replaces it or fails and leaves it. Errors are told apart by their message, not
-- by its arguments. Texts are trimmed and put in lower case as ASCII. Numbers are unbounded where
-- the program bounds them by checks that are modelled; certificate times wrap at 64 bits.
-- The JSON round trip by which a resource is cloned is the identity on values that were decoded
-- from JSON, and does not fail on them. What an authenticator or a policy answers is an argument of
-- each request or step, so it may change between them.
-- There is no fuel: every loop is a recursion on a list.
--
-- Not modelled: the other operations of the clients (enrolment, discovery, listeners, the
-- OIDC browser flow, private key files), which are mostly network and disk access; host keys, the
-- copying of bytes and the command line; in the handlers that are modelled headers, texts of
-- messages, logging and durations in metrics; the registration of collectors, and the construction
-- of clients of Kubernetes and HTTP.
pub mod Api
pub mod Authn
pub mod Authorization
pub mod Blueprint
pub mod Client
pub mod Common
pub mod Environment
pub mod Kube
pub mod Profile
pub mod Registration
pub mod Server
pub mod Sshcert
