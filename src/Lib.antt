-- ===== src/Lib.antt =====
-- A model of iox2_jsonrpc, a Python package that makes the typed methods of a controller object callable
-- by JSON-RPC 2.0 over iceoryx2's shared memory, and of the HTTP gateway that its examples put in front.
--
-- A controller (`service_name`, `controller_name`, public methods with Pydantic models for parameters
-- and result) is inspected by iox2_jsonrpc/controller.py, called by iox2_jsonrpc/endpoint.py, and served
-- by iox2_jsonrpc/iceoryx_server.py, which publishes two iceoryx2 services: one for calls and one that
-- sends the descriptor. iox2_jsonrpc/iceoryx_registry.py finds such services by their attributes, loads
-- their descriptors and calls them. examples/webapi.py holds a registry and forwards HTTP requests;
-- examples/camera.py is a controller, and examples/cli.py a client of it and the runner of the gateway.
--
-- Files, and the code that each is about:
--   Base          lemmas on Booleans, lists and texts; `split`, `join`, `startswith`
--   Python        exceptions, integers, dynamic values, `dict`, `repr`, actions on a state
--   Models        iox2_jsonrpc/models.py: JsonRpcRequest, JsonRpcResponse (`ok`, `fail`), descriptors
--   Controller    iox2_jsonrpc/controller.py: iter_rpc_methods, describe_controller, endpoint names;
--                 Scan, Describe and Names prove about them
--   Endpoint      iox2_jsonrpc/endpoint.py: ControllerRpcEndpoint.handle and handle_bytes;
--                 Dispatch, Replies, Escape and Total prove about one request, Series about many
--   Helpers       iox2_jsonrpc/iceoryx_helpers.py: Bytes (slice_to_bytes, write_bytes_to_uninit_slice),
--                 Attributes (to_str, attribute_set_to_dict, make_attribute_verifier), Cleanup
--                 (best_effort_cleanup_dead_nodes, create_server_with_dead_node_cleanup, and others)
--   Registry      iox2_jsonrpc/iceoryx_registry.py: the calls and look-ups; Transport (_request_bytes),
--                 Discovery (discover_all), Discovery/Loading (load_all_descriptors), Threads (calls of
--                 one registry at the same time, as steps)
--   Server        iox2_jsonrpc/iceoryx_server.py: _drain_requests and the two responses; Attributes (the
--                 attributes that are published), Life (close), Life/Opening (__init__), Life/Loop
--                 (run_forever), Life/Deletions (what is made and deleted, in a log);
--                 Exchanged is one request's part of the loop
--   Gateway       examples/webapi.py: the state of DynamicRpcGateway; Calls (its calls, the status codes
--                 and the handlers of method calls), Openapi (the paths that it documents), Routes (the
--                 table that the router registers), Handlers (the other handlers, and which one a route
--                 runs), Lifespan (the refresh loop), App (what FastAPI is given), Threads (calls and
--                 refreshes at the same time, as steps), Factory (registries that discover_all
--                 makes)
--   Camera        examples/camera.py: CameraController; Requests, History, Told and Frames prove about it
--                 behind the endpoint
--   EndToEnd      a registry's call whose bytes reach an endpoint: Delivery and Served take them through
--                 the client's memory, the server's loop and back; Backlog is the loop over many
--   Cli           examples/cli.py: run_client (Session proves what it does to the camera), the choice of
--                 the mode, create_fastapi_app (Api)
-- A module Tests holds runs and instances of the theorems.
--
-- State and exceptions. A call that may raise gives an `Outcome`; a method that changes an object, or
-- the world that iceoryx2 and the clock are, is an `Action`: it gives the outcome beside the new
-- state, so what was changed before an exception stays changed. `is_exception` tells which exceptions
-- the handlers `except Exception` take; `KeyboardInterrupt` is none of them. The state of a controller
-- is a type parameter, that of a server's loop is the controller's beside the world, that of a
-- registry is its services and its counter beside the world, and that of the gateway has the registry
-- in it.
--
-- Threads. `asyncio.to_thread` runs calls and refreshes of the gateway at the same time. A `Job` is
-- where a thread is, a `Move` is one step of it, which ends where the lock is released or where the
-- factory or the registry has answered, and a `Run` is any sequence of steps of any threads, with the
-- outcomes that refreshes have installed, in order. A part that holds the lock is one step there; in
-- Threads/Lock the lock is taken, waited for and released, and a refresh makes its assignments one by
-- one. In Registry/Threads the steps are those of `call` up to its request: the readings and the
-- writing of the counter, which no lock protects. In Delivery the server has its turn while the client
-- waits.
--
-- Parameters. Pydantic's reading and writing of JSON, its validation (`Model`), iceoryx2 (`Memory`,
-- `Transport`, `Discovery`, `Opening`, `Ports`, `Iceoryx`, `Builder`) and the registry's factory are
-- arguments of what uses them. Laws are assumed only of memory (a written byte is read back), of JSON
-- (messages survive being written and read), of iceoryx2 (what is sent is received), of a builder of
-- attributes (it grows by what is added), and of the clock (a wait moves it), each where a theorem
-- names it.
--
-- Fuel. `poll`, `discover`, `drain_server` and `rounds` run on fuel, and end in `out_of_fuel`, a
-- marker that no handler takes, if there is too little. For `poll` and `discover`, more fuel than the
-- milliseconds to the deadline is enough if each wait moves the clock; for `drain_server`, more than
-- there are requests. The loop of run_forever has no end of its own, and that of the gateway's
-- refreshes runs over a list of what it finds each time that it looks for `stop`. All else is
-- structural recursion; the attempts of create_server_with_dead_node_cleanup are counted down from
-- `max_attempts`.
--
-- Approximations. Times are in milliseconds. Floats and other objects that JSON cannot hold are values
-- `object`. `repr` of a text takes characters beyond Latin-1 to be printable. `except TypeError`
-- compares the class's name. The gateway's calls run one after another but in Threads, where the
-- request counters of registries are not followed, as they are in Registry/Threads; its services are
-- those of the registry's module. A task that is cancelled has ended its refresh.
--
-- Not modelled: what is printed and logged; the reading of arguments and uvicorn in examples/cli.py;
-- run_server of examples/camera.py, which makes a server and runs it; summaries and response models of
-- routes; the protocols of iox2_jsonrpc/iceoryx_protocols.py beyond the operations above; imports and
-- lists of names; which of the waiting threads gets the gateway's lock, and when.
mod Base
pub mod Python
pub mod Models
pub mod Controller
pub mod Endpoint
pub mod Helpers
pub mod Registry
pub mod Server
pub mod Gateway
pub mod EndToEnd
pub mod Camera
pub mod Cli
