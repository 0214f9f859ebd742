-- ===== src/Types/Sample.antt =====
-- Sample data for the tests.
use iop.Base.{false, none, [], Text, text}
use iop.Types.Record.{production}
use iop.Types.Subnet.{SubnetDetail, v4}

-- A subnet with an id and a CIDR, and nothing of interest else.
abbrev pub subnet_at : Text → Text → SubnetDetail
subnet_at id cidr = record {
  subnet = record {
    id = id;
    cidr = cidr;
    name = text "net";
    description = none;
    gateway = none;
    vlan_id = none;
    environment = production;
    parent_id = none;
    vrf_id = none;
    prefix_len = 24;
    depth = 0;
    is_container = false;
    child_prefix_count = 0;
    alert_threshold = none;
    ip_version = v4;
    created_at = [];
    updated_at = [];
    created_by = [];
    updated_by = [];
  };
  total_ips = 256;
  used_ips = 10;
  free_ips = 3;
  reserved_ips = 2;
}
