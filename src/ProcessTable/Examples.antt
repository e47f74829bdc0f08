-- ===== src/ProcessTable/Examples.antt =====
-- The order of the process table at a concrete sort type.
use remote_monitoring_tool.ProcessTable.{comparator, by_disk_total}
use remote_monitoring_tool.ProcessTable.Order.{IsStrictWeakOrder, comparator-IsStrictWeakOrder}

comparator-IsStrictWeakOrder_example : IsStrictWeakOrder (comparator by_disk_total)
comparator-IsStrictWeakOrder_example = comparator-IsStrictWeakOrder by_disk_total
