-- ===== src/Lib.antt =====
-- A distributed Game of Life: a server, in Go, that keeps an infinite grid of cells in chunks of 64 by 64,
-- advances all of them in lockstep, and shows them to the clients that watch them.
--
-- A client sends commands over a socket. The router (gateway/router.go) charges them to the token buckets
-- of the rate limiter (ratelimit/rate_limiter.go), looks patterns up or checks them (gateway/shapes.go),
-- and spawns cells in chunks (simulation/chunk.go). On each tick the engine (simulation/engine.go)
-- computes the next generation of each chunk from its rows and from halos, the rows of the chunks around
-- it. The chunks' cells go to the clients that subscribed to them (gateway/pubsub.go), and to Redis when a
-- chunk hibernates (storage/redis.go).
--
-- Where what is modelled:
--   Prelude      names of the libraries passed on; Boolean tests, lists measured by native numbers,
--                ascending lists, the pigeonhole principle, integers that wrap at 64 bits.
--   Words        uint64: shifts, bit operations, math/bits, and the loop over the set bits of a word.
--   Simulation.Chunk      simulation/chunk.go. NewChunk is new_chunk, AddCell add_cell, and so on; rows is
--                a list of 64 numbers, and IsValid says that it has 64 entries below 2 ^ 64.
--   Simulation.ChunkMap   Go maps keyed by ChunkID, as lists of entries in the order of iteration.
--   Simulation.Engine     simulation/engine.go. TickBitset is tick_bitset, addToScratch add_to_scratch,
--                hasCellsNearEdge has_cells_near_edge; each loop body is a definition of its own.
--   Simulation.Registry   simulation/registry.go. GetOrCreate is get_or_create, ProcessSpawn on the handle
--                that it returns is spawn_cell, and PeekChunk, processJob and hibernate are peek_chunk,
--                process_job and hibernate. The callbacks of RegistryConfig are functions on a state
--                that stands for what is behind them. A spawn on a handle is in the same step as the
--                GetOrCreate that returned it; Simulation.Threads takes them apart.
--   Simulation.Threads    GetOrCreate and ProcessSpawn of simulation/registry.go again, as goroutines run
--                them: each critical section, the load in between and AddCell are steps that come in any
--                order, on a memory with the chunks at addresses. evict is a step as well; the rest of the
--                tick is not part of this memory.
--   Simulation.TickAll    TickAll and runWorker of simulation/registry.go. tick_all takes the order in which
--                the workers take the jobs and the worker of each; a job is one step. A job finds its
--                chunk's state, to which tickJob has a pointer, under the chunk's key.
--   Simulation.Workers    NewRegistry, runWorker and the end of TickAll in simulation/registry.go: the channel
--                of jobs with its capacity, the workers and the WaitGroup. What they do with the jobs is in
--                Simulation.TickAll; pool_round makes a round of its ticks of a run of the pool.
--   Ratelimit    ratelimit/rate_limiter.go: the two Lua scripts as token_bucket and drain_script, and the
--                methods AllowMutation and DrainN. Redis is a record of commands with their laws.
--   Storage      storage/redis.go. Redis and the JSON codec are a record of operations with their laws; Keys
--                has chunkKey as chunk_key.
--   Gateway.Shapes        gateway/shapes.go: the catalog, GetShape, ValidateCustomCells.
--   Gateway.Coordinates   worldToChunkLocal of gateway/router.go.
--   Gateway.Pubsub        gateway/pubsub.go, with clients as numbers.
--   Gateway.Router        gateway/router.go: Route is route, checkRateLimit check_rate_limit, chargeN
--                charge_n. A command carries what the JSON decoder made of its payload.
--   Server       main.go and gateway/websocket.go: registry_config joins the registry to Storage and
--                PubSub; an event is a tick, a client's message as json.Unmarshal leaves it, or a
--                dropped connection, and step is what the server does then, from its first line to
--                its last. Simulation.TickAll.LateSpawn has a spawn in the middle of a tick.
--   Server.Connections    HandleWebSocket of gateway/websocket.go for many connections, from the upgrade to
--                the deferred UnsubscribeAll. json.Unmarshal is a parameter.
--   Server.Startup        readSecret and main of main.go up to the ping, with os.Getenv, the metadata server,
--                the Secret Manager and Redis' answer as a record. strings.TrimSpace is trim_space.
--   Tests        runs at concrete inputs, and the theorems applied to them.
--
-- State is passed explicitly: an operation takes the state and returns the new one. Errors are values
-- (Option, or a type with the source's error codes). Machine integers are native numbers with the
-- wrap-around written out. Counted loops are for_below. The loop that clears one bit of a word in each
-- round, for_each_bit, runs on 64 rounds of fuel, which are enough for any word; digits, one round for
-- each digit, has the number itself as fuel, which has no more digits than that.
--
-- Not modelled: locks (each method that holds its lock for all of its accesses is one step; those of
-- GetOrCreate are the steps of Simulation.Threads), log lines, and metrics but for the gauge of the active
-- chunks there; sockets, and the HTTP routes with loopbackOnly and HandleCatalog, which hand requests to
-- handlers of libraries; the capacities of slices; the cancellation of TickAll's context, which main.go
-- never does; and the client in viewport/. The quantities in the scripts are whole numbers, so that Lua's
-- floating point numbers are exact. The clock of the limiter's callers does not go back in a history of
-- calls, and Redis lets keys expire by the same clock.
pub mod Prelude
pub mod Words
pub mod Simulation
pub mod Ratelimit
pub mod Server
pub mod Storage
pub mod Gateway
pub mod Tests
