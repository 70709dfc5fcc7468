-- ===== src/Gateway/Factory/Tests.antt =====
-- A gateway that finds its services in the world of Registry/Tests.antt.
use iox2_jsonrpc.Base.{arith, ℕ, ◌≡◌, ◌⊎◌, true}
use iox2_jsonrpc.Python.Outcome.{Exception, raised, returned}
use iox2_jsonrpc.Registry.Tests.{discovery, discovery-Ticks, opening, ask, descriptor}
use iox2_jsonrpc.Gateway.{DynamicRpcGateway, new_gateway, services_snapshot, refresh}
use iox2_jsonrpc.Gateway.Factory.{FactoryOptions, default_registry_factory}
use iox2_jsonrpc.Gateway.Factory.Found.{Offers, refresh-Offers}

abbrev options : FactoryOptions
options = record { timeout = 1000; initial_max_slice_len = 4096; load_descriptors = true }

abbrev gateway : DynamicRpcGateway ℕ ℕ
gateway = new_gateway

refresh-Offers_example :
    let factory =
      default_registry_factory discovery opening ask (λ raw. returned descriptor) options 1001 in
    let after = (refresh factory (gateway, 0)).1.0 in
    ((e : Exception) × ((factory 0).0 ≡ raised e) × (after.registry ≡ gateway.registry))
    ⊎ Offers discovery opening ask (λ raw. returned descriptor) options 0 (services_snapshot after)
refresh-Offers_example =
    refresh-Offers discovery opening ask (λ raw. returned descriptor) options 1001 gateway 0
      discovery-Ticks (omega arith)
