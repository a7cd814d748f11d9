-- ===== src/Tree/Tail.antt =====
-- The third child in tree/tree.c: findpeertail is called with the address of the field `peer`, and
-- reads the field `peer` of what stands there, which is the field `child` of the next node.
