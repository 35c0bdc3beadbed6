-- ===== src/Lib.antt =====
-- The drivers of the Netronome Flow Processor: the allocation of tags for control messages, the
-- mailbox that carries them for a vNIC, the identifiers, the address encoders and the mutexes of the
-- CPP bus, the capabilities of a control BAR and its reconfiguration, the instructions of the
-- microengines, the metadata of offloaded flows, the filters of the buffer management, and the
-- translator of BPF programs.
--
-- The driver talks to the device over the CPP bus. nfp_target.c turns an identifier (target,
-- action, token, island) and an address into those of the transport, and nfp_mutex.c builds locks
-- that several hosts share out of atomic commands of the memory unit. An application asks the
-- firmware by control messages, which ccm.c matches with their replies by tags. What a vNIC can do
-- is read from TLVs in its control BAR by nfp_net_ctrl.c, and nfp_asm.c edits the instructions that
-- the BPF offload loads.
--
-- Files:
--   Base: comparison, arrays, casts, errno values, and `&` and `|` by their parts (Base/Bits).
--   Ccm: src/ccm.c, src/ccm.h. The tag allocator (Ccm/Tags), a request from the tag to the reply
--     (Ccm/Request and below), and sequences of operations (Ccm/Sequence). What other contexts do
--     between two uses of the lock is a parameter, which keeps the state valid.
--   Mailbox: src/ccm_mbox.c. A message and its control buffer (Mailbox), what is written to the
--     mailbox (Mailbox/CopyIn) and read from it (Mailbox/CopyOut), the queue and its batches
--     (Mailbox/Queue), and the threads and works that share it as a step relation (Mailbox/System).
--     A message that is done stays in a list of the model.
--   Cpp: the CPP identifiers of src/nfpcore/nfp_cpp.h and src/nfpcore/nfp6000/nfp6000.h.
--   Target: src/nfpcore/nfp_target.c. The push/pull table (Target/Tables, Target/PushPull), the
--     encoders and the decoder (Target/Encode), each function of the source under its name less the
--     prefix nfp_.
--   Mutex: src/nfpcore/nfp_mutex.c. An operation is a program of accesses. Mutex/Safe says which
--     accesses it makes, and Mutex/System runs the programs of many hosts, one access at a time.
--     The atomic engine is a parameter, with the laws of the three commands as a record.
--   Tlv: src/nfp_net_ctrl.c, src/nfp_net_ctrl.h. The BAR is a function from offsets to words.
--   Net: src/nfp_net_common.c. The reconfiguration of a vNIC (Net/Reconfig): the state behind its
--     lock, the callers, posts and the timer as a step relation, and the waits (Net/Reconfig/Wait).
--     The bits that were asked for are one more field of the model.
--   Asm: src/nfp_asm.c, src/nfp_asm.h. The operands (Asm/Operands), and the fields of branches,
--     immediates and the ECC (Asm/Fields, Asm/Branch).
--   Flower: src/flower/metadata.c. The ring of free identifiers (Flower/Ring), the mask identifiers
--     and their counts (Flower/Mask), the statistics identifiers (Flower/Stats), and the metadata of
--     a flow, compiled from both (Flower/Metadata). The tables of the kernel are lists, and the hash
--     of a mask is a number that comes with the flow.
--   Jit: src/bpf/jit.c. The buffer (Jit/Prog), the emitters (Jit/Emit, with their counts of
--     instructions in Jit/Count), the loads of immediates and moves (Jit/Wrap), the shifts
--     (Jit/Shift), the other callbacks for arithmetic and jumps (Jit/Alu), the loop over them
--     (Jit/Translate), and the image of a program for one vNIC (Jit/Relo). `insn_` is the word that
--     a function with two underscores pushes. A write outside of the buffer, which the source
--     cannot see, is a flag of the program. The callbacks of the divisions, and those of loads,
--     stores and calls are not there, nor are the passes before and after the loop.
--   Abm: src/abm/cls.c. The filters that map DSCP values to bands (Abm/Cls). The accesses to the
--     firmware are arguments that say how they end.
--   A Tests module in each part has runs at fixed inputs.
--
-- Bounds and fuel: numbers are natural numbers with the casts of the source written out. The loop
-- that releases tags has the number of used tags as fuel, and the loops over TLVs a quarter of the
-- BAR or of the mailbox, since each round takes four bytes: all are shown to be enough. The waits
-- of src/ccm.c look 50 times, as the source does. The wait of src/nfp_net_common.c has a fuel that
-- counts looks, and two looks behind the deadline are shown to be enough. The loop of
-- nfp_cpp_mutex_lock has a fuel that counts rounds, and the statement about hosts holds for each
-- fuel. `jiffies` does not wrap around.
--
-- Not modelled: messages to the log, memory that the kernel gives or refuses except where a result
-- depends on it, DMA, interrupts, and the parts of the driver that build structures of the kernel
-- or register with it. The encoders of src/nfpcore/nfp_target.c for MU have no decoder in the
-- source. The CPP areas, the service processor, the rest of the flower application, the rest of
-- the BPF application, the queuing disciplines of the ABM application and the data path are not
-- modelled.
pub mod Abm
pub mod Asm
pub mod Base
pub mod Ccm
pub mod Cpp
pub mod Flower
pub mod Jit
pub mod Mailbox
pub mod Net
pub mod Mutex
pub mod Target
pub mod Tlv
