-- ===== src/Lib.antt =====
-- kt-cloud-operator: a Kubernetes operator that keeps clusters on KT Cloud. Its reconcilers read
-- objects of the API server, ask KT Cloud over HTTP for servers, public addresses and firewalls, and
-- store what they have learnt in the objects' status.
--
-- The parts and the files that model them. Functions keep their names, in snake case.
--
--   Common: names of the standard library, Boolean tests as Go makes them, integers and lists.
--   Api: the records of api/v1beta1, one file for each kind of object. Fields of Kubernetes'
--   metadata that the code does not touch are left out. `Lists` are their List types, and
--   `Registration` is how they are added to a scheme.
--   Runtime: what a Go function with effects is. `Runtime.Calls` lists the calls that leave the
--   program: an HTTP request, a read or a write of an object, a sleep, a random number. A history is
--   the list of the calls made so far, the last one first. `Runtime.Env` is the world: the answer to
--   each call as a function of the history before it, and the functions of packages that are not in
--   the repository (JSON, YAML, base64, URLs, `SetControllerReference`). `Runtime.Effects` is the
--   monad: a function returns a value, returns an `error`, panics, or ends the process, with the
--   history that it leaves. `Runtime.Steps` inverts and computes binds; `Runtime.Keeps` has the
--   rules by which an action keeps a predicate of histories; `Runtime.Since` counts the calls since
--   a point; `Runtime.Hoare` has the rules of triples, from what holds before an action to what holds
--   where it returns a value and where it does not.
--   Httpapi: the package cmd/httpapi. `Send` has the steps that each function repeats, `Send.Silent`
--   that they keep every predicate of histories, `CloudInit` the scripts of new servers,
--   `ControlPlaneVm` is cp_vm.go, `WorkerVm` worker_vm.go, `Bootstrap` cp_bootstrap.go, `Servers` common.go, `PublicIps`, `Networks` and `FirewallSettings` are
--   network.go, `Kubeconfigs` is helpers.go, `Login` login.go, and `Types` the payloads.
--   `Environment` is what the package's init does. `Plain` and `Creates` have the rules for the calls
--   that each function makes, and `ServerAnswers` says which answers are those to a request for a
--   server.
--   Controller: internal/controller and internal/utils. `Infrastructure` is reconcileInfrastructure,
--   `Lookup` and `KtMachines` are the rest of ktmachine_controller.go, `MachineDeployments` is
--   machinedeployment_controller.go, `RandomNames` util.go, and `Owners` the reconcilers that set
--   owner references. `Scaffolds` are the reconcilers that do nothing. `Lifecycle` follows a stored
--   machine over sequences of passes: `Store` is how the API server keeps a machine, `Lifecycle` is a
--   property of a machine that each edit of a pass keeps, `Passes` are passes with calls of others
--   between them, and `Servers`, `WorkerServers`, `Marks` and `JoinMarks` are such
--   properties. `Rules` is what the calls of a pass keep, `Versions` the API server's optimistic
--   concurrency, where a property needs it, and `Joins` the write of a worker's mark. `Fleet` are
--   passes of all ten reconcilers over any objects, and what they are for one machine and for
--   one deployment.
--   `MachineDeployments.Inventory` is how the API server keeps a deployment's machines, and
--   `Lookup.Logins` how it keeps tokens and clusters.
--   Start: cmd/main.go, and the SetupWithManager of each controller.
--   Tests: a world that answers every call, objects, and each theorem at an input.
--
-- A method that changes the object behind a pointer returns the changed object here, and its callers
-- go on with it; a machine that is passed by value, as to JoinControlPlane, is not handed back. A
-- status update returns the object that the API server sends back, since the client decodes it into
-- its argument. An object that a function changes and then does not store is dropped.
--
-- Every loop of the program runs over a list or a number of rounds, so every definition is by
-- structural recursion. The loop that fetches the kubeconfig has the program's 24 rounds. Numbers are
-- unbounded: the program adds no numbers that could overflow, and the status codes and replicas that
-- it compares are below 2^63.
--
-- What the log prints, the `context` arguments, the timeouts of the HTTP clients and `resp.Body.Close`
-- are left out. The order in which Go ranges over a map is a function of the world. The finalizers'
-- blocks are commented out in the source; the functions that only they call are modelled.
--
-- Not modelled are the generated deep copies, which leave a value as it is, and the types of
-- kubeconfig-types.go, which no code uses. controller-runtime, which calls the reconcilers, is the
-- sequence of their calls.
pub mod Common
pub mod Api
pub mod Httpapi
pub mod Runtime
pub mod Controller
pub mod Start
mod Tests
