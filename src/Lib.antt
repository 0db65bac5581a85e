-- ===== src/Lib.antt =====
-- LMServe's Python worker: what it computes on a batch, how it keeps its key and value caches,
-- and what the load generator counts.
--
-- A worker of LMServe runs two processes on a GPU. The model worker
-- (runtime/worker/llm_worker/model_worker.py) takes the inputs of one step from the engine, packs
-- them into one batch, runs the model and returns one token for each sequence. The KV worker
-- (runtime/worker/llm_worker/kv_worker.py) moves blocks of keys and values between the GPU, the
-- host's memory, a file on disk and other workers. They share the memory of the GPU cache, one
-- event before and one after each attention layer, and two queues.
--
-- * Prelude is what all parts share: lists and tests on native numbers, quotients, and Python
--   exceptions as values (Results).
-- * Batch is `ModelWorker._make_inputs` with `build_prefill_wrapper` and `build_decode_wrapper`:
--   Inputs (the sort and the loop), Pages (the page tables), Make (the whole). Order, Collect,
--   Layout, Paging and Positions prove.
-- * Warmup is `ModelWorker.warmup`: the inputs that it makes up (Warmup) and the model and
--   sampler run on them (Run). Spread and Fit prove of the inputs.
-- * Forward is runtime/worker/llm_worker/models: Attend is `Attention.forward` of
--   layers/attention.py, Rows and Decoder are the decoder, the model and the last rows of
--   llama.py, Qwen2 and Opt the same of qwen2.py and opt.py, and Sizes what the attention blocks
--   and the decoder of OPT compute of a configuration. Appends is the cache of a layer and what
--   flashinfer documents of the append; Appended, Held and Passes prove what the cache holds over
--   successive batches. Hooked is the pass with the hooks of the model worker. Attention,
--   Segments, Logits, Plain, OptLogits, Qwen2Equal, Shares and OptShares prove.
-- * KvWorker is kv_worker.py: DiskFile (`memmap_disk_kv_cache`), Store (the memory), Host, Disk
--   and Copy (the copies), Handshake (the hooks of `init_cache` and the loops over the layers as
--   a step relation), Transfer (the transfers between workers). Contents, Directions and
--   DiskCopies are the laws that the four directions of copying share; CopyKv and RoundTrip say
--   what a copy does, Table and Refinement relate it to a plain table of blocks, Threads,
--   ThreadSteps and AnyOrder run the tasks of the disk copies in any order. Start is
--   `KVWorker.__init__`; Addresses and SharedMemory relate its addresses to the tensor of the
--   model worker. Of Handshake, Order, Settled and Progress say which interleavings there are,
--   Effects what the steps do to the memory, and Layers and Overlap compare that with one process
--   after the other.
-- * ModelWorker is the rest of model_worker.py: Execute is `execute`, Sampler is `sample` of
--   models/sampler.py, Modules is `travel_layers` of models/utils.py and `get_model_size`, Trees
--   the modules of the three models, and Hooks what `init_cache` registers on them. Words,
--   Outputs and Execution prove.
-- * Loading is what a worker sets up: Config (`ModelConfig` of models/__init__.py and the sizes
--   of `init_cache`), Files (`_get_hf_weight_files`) and Shards (`load_weights`), both of
--   models/utils.py, and Names (`get_layer_type`, and the `load_weights` methods of the three
--   models). Checkpoint and LoadModels prove.
-- * Services is cli.py: the handlers of the two gRPC services, and Ready that of `InitCache` with
--   its wait for the other process; Session proves of a sequence of requests, Inference of one
--   request through all parts.
-- * Startup is runtime/worker/llm_worker/utils.py: the list of processors of a GPU, and the
--   variables of the environment; Affinity proves.
-- * Kernels is `copy_blocks` of runtime/worker/llm_worker/ops/cache_ops.py with its kernel in
--   ops/triton/cache_kernels.py, and Rotary the kernel of ops/triton/rotary_embedding.py with its
--   launch in ops/rotary_embedding_ops.py, RotaryTable the table of
--   models/layers/rotary_embedding.py with its `forward`. Stores, Programs, Pairs, Grid and
--   AnyOrder prove of the first, RotaryHeads, RotaryRows, RotaryTokens, RotaryNumbers,
--   RotaryTurns and RotaryAngles of the second.
-- * Benchmarks is benchmarks/benchmark_utils.py: Stats (`from_response` and the counts of
--   `summarize_results`), Trace (`save_request_trace`) and Saved (`save_request_stats`); and
--   Requests, Timed and Sessions are `generate_requests`, `generate_trace` and
--   `generate_chat_requests` of benchmarks/generator/request_generator.py. Windows and Totals
--   prove.
--
-- A tensor is the list of its rows, with rows of an arbitrary type; what torch, flashinfer,
-- pycuda, NIXL and the tokenizer compute is a parameter, with its documented behaviour as a named
-- hypothesis where a theorem needs it. Numbers that the source keeps in 32-bit tensors are
-- natural numbers, taken to be in range. A floating point number is an element of an arbitrary
-- type, or, in Benchmarks, a whole number of a unit of time. A method that raises returns the
-- exception's class; messages and logging are left out.
--
-- A call that does not return, since nothing puts a value into the queue for which it waits, is
-- the outcome `waits_forever`. In KvWorker no forward pass runs during a call, so that the queue
-- holds what was there before; in Forward/Hooked, the forward pass with its hooks, the model's
-- queue counts what the KV worker still puts there. ModelWorker/Hooks and Handshake are about the
-- two processes at once.
--
-- Copies on one stream keep their order, and the tasks that `asyncio.gather` waits for are run
-- one after another, which AnyOrder justifies: each works on a layer of its own. In Handshake the
-- order is any interleaving of the three sequential processes, the copies of one layer being one
-- step, and an event that is recorded when a stream is told to wait for it orders the two
-- streams. The loop on the state of a transfer runs on fuel: any number above the number of
-- answers "busy" is enough. The wait of `InitCache` for a socket runs for a number of rounds, and
-- Ready says which are enough. The loop that removes descriptors runs on the number of
-- descriptors, since each round removes one; the passes over a dataset and the search for a free
-- name run on fuel that Requests and Saved show to be enough. The programs of a Triton grid run
-- one after another in any order; a program's rounds are as many as its range has.
--
-- Not modelled: the Rust engine, router and command line tools (runtime/src, clis, utils), the
-- servers and the end of processes and CUDA contexts, the exchange of the metadata of agents, the
-- kernel `fill_key_cache`, which nothing calls, the functions of models/parallel and of
-- models/layers/activations.py, which are copied from other projects, and in the benchmarks the
-- clients, the making of the datasets, percentiles and the writing of files.
pub mod Prelude
pub mod Batch
pub mod Warmup
pub mod Forward
pub mod KvWorker
pub mod ModelWorker
pub mod Loading
pub mod Services
pub mod Startup
pub mod Kernels
pub mod Benchmarks
