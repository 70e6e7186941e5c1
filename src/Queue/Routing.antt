-- ===== src/Queue/Routing.antt =====
-- ecommerce_super/easyecom/queue/routing.py: the tables that route a job type.
use ecommerce_super.Base.{ℕ, String, Option, List, [], ◌∷◌, lookup, or_else}

abbrev queue_for_job_type : List (String × String)
queue_for_job_type =
    ("Webhook Process", "short")
    ∷ ("SLA Breach Compute", "short")
    ∷ ("Configuration Audit Write", "short")
    ∷ ("Item Push", "default")
    ∷ ("Customer Push", "default")
    ∷ ("Supplier Push", "default")
    ∷ ("PO Push", "default")
    ∷ ("PO Status Push", "default")
    ∷ ("SO Push", "default")
    ∷ ("B2B Invoice Push", "default")
    ∷ ("Order Pull", "default")
    ∷ ("GRN Pull", "default")
    ∷ ("Return Pull", "default")
    ∷ ("Field Mapping Compile", "default")
    ∷ ("Transfer Push", "default")
    ∷ ("Inventory Pull", "long")
    ∷ ("Master Sync Bulk", "long")
    ∷ ("Replay Plan Step", "long")
    ∷ ("Schema Snapshot Compute", "long")
    ∷ ("Mapping Coverage Compute", "long")
    ∷ ("Morning Brief Compute", "long")
    ∷ []

abbrev timeout_for_job_type : List (String × ℕ)
timeout_for_job_type =
    ("Webhook Process", 60)
    ∷ ("Item Push", 120)
    ∷ ("Customer Push", 120)
    ∷ ("Supplier Push", 120)
    ∷ ("PO Push", 120)
    ∷ ("PO Status Push", 60)
    ∷ ("SO Push", 120)
    ∷ ("B2B Invoice Push", 300)
    ∷ ("Order Pull", 180)
    ∷ ("GRN Pull", 180)
    ∷ ("Return Pull", 180)
    ∷ ("Transfer Push", 120)
    ∷ ("Inventory Pull", 1500)
    ∷ ("Master Sync Bulk", 3600)
    ∷ ("Replay Plan Step", 300)
    ∷ ("Field Mapping Compile", 30)
    ∷ ("Schema Snapshot Compute", 600)
    ∷ ("Mapping Coverage Compute", 600)
    ∷ ("Morning Brief Compute", 600)
    ∷ ("SLA Breach Compute", 60)
    ∷ ("Configuration Audit Write", 30)
    ∷ []

abbrev max_attempts_for_job_type : List (String × ℕ)
max_attempts_for_job_type =
    ("Webhook Process", 5)
    ∷ ("Item Push", 5)
    ∷ ("Customer Push", 5)
    ∷ ("Supplier Push", 5)
    ∷ ("PO Push", 5)
    ∷ ("PO Status Push", 5)
    ∷ ("SO Push", 5)
    ∷ ("B2B Invoice Push", 5)
    ∷ ("Order Pull", 5)
    ∷ ("GRN Pull", 5)
    ∷ ("Return Pull", 5)
    ∷ ("Transfer Push", 5)
    ∷ ("Inventory Pull", 3)
    ∷ ("Master Sync Bulk", 3)
    ∷ ("Replay Plan Step", 5)
    ∷ ("Field Mapping Compile", 3)
    ∷ ("Schema Snapshot Compute", 3)
    ∷ ("Mapping Coverage Compute", 3)
    ∷ ("Morning Brief Compute", 3)
    ∷ ("SLA Breach Compute", 5)
    ∷ ("Configuration Audit Write", 5)
    ∷ []

abbrev pub default_max_attempts : ℕ
default_max_attempts = 5

-- `none` is the `ValueError` of an unregistered job type.
unfoldable pub queue_for : String → Option String
queue_for job_type = lookup job_type queue_for_job_type

unfoldable pub timeout_for : String → ℕ
timeout_for job_type = or_else (lookup job_type timeout_for_job_type) 300

unfoldable pub max_attempts_for : String → ℕ
max_attempts_for job_type = or_else (lookup job_type max_attempts_for_job_type) default_max_attempts
