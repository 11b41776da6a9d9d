-- ===== src/Routing/Aggregate.antt =====
-- The tools of a server in the aggregated list, once they are fetched.
