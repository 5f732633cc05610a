-- ===== src/Malloc/Calloc.antt =====
-- mycalloc, on top of what mymalloc does for its client.
use public_systems_projects.Base.{Option, none, some, Outcome, ret, fault}
use public_systems_projects.Memory.{Ptr}
use public_systems_projects.Malloc.{Allocator}

-- after the call of memset, which is undefined on NULL
abbrev pub cleared : Option Ptr → Allocator → Outcome (Option Ptr × Allocator)
cleared none b = fault
cleared (some p) b = ret (some p, b)
