-- ===== src/Cosem/Interface.antt =====
-- CosemInterface of dlms_cosem/enumerations.py.
use dlms_cosem.Prelude.{ℕ, ◌<◌, ◌≡◌, refl, arith, List, [], ◌∷◌, Result, ok, member_of}

pub data CosemInterface : Type 0 where
  data_object register extended_register demand_register : CosemInterface
  register_activation profile_generic utility_tables register_table : CosemInterface
  compact_data status_mapping association_sn association_ln : CosemInterface
  sap_assignment image_transfer security_setup push : CosemInterface
  cosem_data_protection function_control array_manager communication_port_protection :
      CosemInterface
  clock script_table schedule special_days_table : CosemInterface
  activity_calendar register_monitor single_action_schedule disconnect_control : CosemInterface
  limiter parameter_monitor sensor_manager arbitrator : CosemInterface
  account credit charge token_gateway : CosemInterface
  iec_local_port_setup iec_hdlc_setup iec_twisted_pair_setup modem_configuration : CosemInterface
  auto_answer auto_connect gprs_modem_setup gsm_diagnostics : CosemInterface
  lte_monitoring mbus_slave_port_setup mbus_client mbus_wireless_mode_q_channel : CosemInterface
  mbus_master_port_setup mbus_port_setup_dlms_cosem_server mbus_diagnostics tcp_udp_setup :
      CosemInterface
  ipv4_setup ipv6_setup mac_address_setup ppp_setup : CosemInterface
  smtp_setup ntp_setup s_fsk_phy_mac_setup s_fsk_active_initiator : CosemInterface
  s_fsk_mac_synchronisation_timeouts s_fsk_mac_counters s_fsk_iec_61334_4_32_llc_setup
        s_fsk_reporting_system_list :
      CosemInterface
  iec_8802_2_llc_type_1_setup iec_8802_2_llc_type_2_setup iec_8802_2_llc_type_3_setup
        prime_61344_4_32_llc_sscs_setup :
      CosemInterface
  prime_ofdm_plc_physical_layer_counters prime_ofdm_plc_mac_setup
        prime_ofdm_plc_mac_functional_parameters prime_ofdm_plc_mac_counters :
      CosemInterface
  prime_ofdm_plc_mac_network_administration_data prime_ofdm_plc_mac_application_identification
        g3_plc_mac_layer_counters g3_plc_mac_setup :
      CosemInterface
  g3_plc_6lowpan_adaptation_layer_setup hs_plc_iec_12139_1_mac_setup hs_plc_iec_12139_1_cpas_setup
        hs_plc_iec_12139_1_ip_ssas_setup :
      CosemInterface
  hs_plc_iec_12139_1_hdlc_ssas_setup zigbee_sas_startup zigbee_sas_join
        zigbee_sas_aps_fragmentation :
      CosemInterface
  zigbee_network_control zigbee_tunnel_setup schc_lpwan schc_lpwan_diagnostics : CosemInterface
  lorawan_setup lorawan_diagnostics wisun_setup wisum_diagnostics : CosemInterface
  rpl_diagnostics mpl_diagnostics iec_14908_identification iec_14908_protocol_setup : CosemInterface
  iec_14908_protocol_status iec_14908_diagnostics : CosemInterface

unfoldable pub cosem_interface_value : CosemInterface → ℕ
cosem_interface_value data_object = 1
cosem_interface_value register = 3
cosem_interface_value extended_register = 4
cosem_interface_value demand_register = 5
cosem_interface_value register_activation = 6
cosem_interface_value profile_generic = 7
cosem_interface_value utility_tables = 26
cosem_interface_value register_table = 61
cosem_interface_value compact_data = 62
cosem_interface_value status_mapping = 63
cosem_interface_value association_sn = 12
cosem_interface_value association_ln = 15
cosem_interface_value sap_assignment = 17
cosem_interface_value image_transfer = 18
cosem_interface_value security_setup = 64
cosem_interface_value push = 40
cosem_interface_value cosem_data_protection = 30
cosem_interface_value function_control = 122
cosem_interface_value array_manager = 123
cosem_interface_value communication_port_protection = 124
cosem_interface_value clock = 8
cosem_interface_value script_table = 9
cosem_interface_value schedule = 10
cosem_interface_value special_days_table = 11
cosem_interface_value activity_calendar = 20
cosem_interface_value register_monitor = 21
cosem_interface_value single_action_schedule = 22
cosem_interface_value disconnect_control = 70
cosem_interface_value limiter = 71
cosem_interface_value parameter_monitor = 65
cosem_interface_value sensor_manager = 67
cosem_interface_value arbitrator = 68
cosem_interface_value account = 111
cosem_interface_value credit = 112
cosem_interface_value charge = 113
cosem_interface_value token_gateway = 115
cosem_interface_value iec_local_port_setup = 19
cosem_interface_value iec_hdlc_setup = 23
cosem_interface_value iec_twisted_pair_setup = 24
cosem_interface_value modem_configuration = 27
cosem_interface_value auto_answer = 28
cosem_interface_value auto_connect = 29
cosem_interface_value gprs_modem_setup = 45
cosem_interface_value gsm_diagnostics = 47
cosem_interface_value lte_monitoring = 151
cosem_interface_value mbus_slave_port_setup = 25
cosem_interface_value mbus_client = 72
cosem_interface_value mbus_wireless_mode_q_channel = 73
cosem_interface_value mbus_master_port_setup = 74
cosem_interface_value mbus_port_setup_dlms_cosem_server = 76
cosem_interface_value mbus_diagnostics = 77
cosem_interface_value tcp_udp_setup = 41
cosem_interface_value ipv4_setup = 42
cosem_interface_value ipv6_setup = 48
cosem_interface_value mac_address_setup = 43
cosem_interface_value ppp_setup = 44
cosem_interface_value smtp_setup = 46
cosem_interface_value ntp_setup = 100
cosem_interface_value s_fsk_phy_mac_setup = 50
cosem_interface_value s_fsk_active_initiator = 51
cosem_interface_value s_fsk_mac_synchronisation_timeouts = 52
cosem_interface_value s_fsk_mac_counters = 53
cosem_interface_value s_fsk_iec_61334_4_32_llc_setup = 55
cosem_interface_value s_fsk_reporting_system_list = 56
cosem_interface_value iec_8802_2_llc_type_1_setup = 57
cosem_interface_value iec_8802_2_llc_type_2_setup = 58
cosem_interface_value iec_8802_2_llc_type_3_setup = 59
cosem_interface_value prime_61344_4_32_llc_sscs_setup = 80
cosem_interface_value prime_ofdm_plc_physical_layer_counters = 81
cosem_interface_value prime_ofdm_plc_mac_setup = 82
cosem_interface_value prime_ofdm_plc_mac_functional_parameters = 83
cosem_interface_value prime_ofdm_plc_mac_counters = 84
cosem_interface_value prime_ofdm_plc_mac_network_administration_data = 85
cosem_interface_value prime_ofdm_plc_mac_application_identification = 86
cosem_interface_value g3_plc_mac_layer_counters = 90
cosem_interface_value g3_plc_mac_setup = 91
cosem_interface_value g3_plc_6lowpan_adaptation_layer_setup = 92
cosem_interface_value hs_plc_iec_12139_1_mac_setup = 140
cosem_interface_value hs_plc_iec_12139_1_cpas_setup = 141
cosem_interface_value hs_plc_iec_12139_1_ip_ssas_setup = 142
cosem_interface_value hs_plc_iec_12139_1_hdlc_ssas_setup = 143
cosem_interface_value zigbee_sas_startup = 101
cosem_interface_value zigbee_sas_join = 102
cosem_interface_value zigbee_sas_aps_fragmentation = 103
cosem_interface_value zigbee_network_control = 104
cosem_interface_value zigbee_tunnel_setup = 105
cosem_interface_value schc_lpwan = 126
cosem_interface_value schc_lpwan_diagnostics = 127
cosem_interface_value lorawan_setup = 128
cosem_interface_value lorawan_diagnostics = 129
cosem_interface_value wisun_setup = 95
cosem_interface_value wisum_diagnostics = 96
cosem_interface_value rpl_diagnostics = 97
cosem_interface_value mpl_diagnostics = 98
cosem_interface_value iec_14908_identification = 130
cosem_interface_value iec_14908_protocol_setup = 131
cosem_interface_value iec_14908_protocol_status = 132
cosem_interface_value iec_14908_diagnostics = 133

abbrev cosem_interface_members : List (ℕ × CosemInterface)
cosem_interface_members =
    (1, data_object)
    ∷ (3, register)
    ∷ (4, extended_register)
    ∷ (5, demand_register)
    ∷ (6, register_activation)
    ∷ (7, profile_generic)
    ∷ (26, utility_tables)
    ∷ (61, register_table)
    ∷ (62, compact_data)
    ∷ (63, status_mapping)
    ∷ (12, association_sn)
    ∷ (15, association_ln)
    ∷ (17, sap_assignment)
    ∷ (18, image_transfer)
    ∷ (64, security_setup)
    ∷ (40, push)
    ∷ (30, cosem_data_protection)
    ∷ (122, function_control)
    ∷ (123, array_manager)
    ∷ (124, communication_port_protection)
    ∷ (8, clock)
    ∷ (9, script_table)
    ∷ (10, schedule)
    ∷ (11, special_days_table)
    ∷ (20, activity_calendar)
    ∷ (21, register_monitor)
    ∷ (22, single_action_schedule)
    ∷ (70, disconnect_control)
    ∷ (71, limiter)
    ∷ (65, parameter_monitor)
    ∷ (67, sensor_manager)
    ∷ (68, arbitrator)
    ∷ (111, account)
    ∷ (112, credit)
    ∷ (113, charge)
    ∷ (115, token_gateway)
    ∷ (19, iec_local_port_setup)
    ∷ (23, iec_hdlc_setup)
    ∷ (24, iec_twisted_pair_setup)
    ∷ (27, modem_configuration)
    ∷ (28, auto_answer)
    ∷ (29, auto_connect)
    ∷ (45, gprs_modem_setup)
    ∷ (47, gsm_diagnostics)
    ∷ (151, lte_monitoring)
    ∷ (25, mbus_slave_port_setup)
    ∷ (72, mbus_client)
    ∷ (73, mbus_wireless_mode_q_channel)
    ∷ (74, mbus_master_port_setup)
    ∷ (76, mbus_port_setup_dlms_cosem_server)
    ∷ (77, mbus_diagnostics)
    ∷ (41, tcp_udp_setup)
    ∷ (42, ipv4_setup)
    ∷ (48, ipv6_setup)
    ∷ (43, mac_address_setup)
    ∷ (44, ppp_setup)
    ∷ (46, smtp_setup)
    ∷ (100, ntp_setup)
    ∷ (50, s_fsk_phy_mac_setup)
    ∷ (51, s_fsk_active_initiator)
    ∷ (52, s_fsk_mac_synchronisation_timeouts)
    ∷ (53, s_fsk_mac_counters)
    ∷ (55, s_fsk_iec_61334_4_32_llc_setup)
    ∷ (56, s_fsk_reporting_system_list)
    ∷ (57, iec_8802_2_llc_type_1_setup)
    ∷ (58, iec_8802_2_llc_type_2_setup)
    ∷ (59, iec_8802_2_llc_type_3_setup)
    ∷ (80, prime_61344_4_32_llc_sscs_setup)
    ∷ (81, prime_ofdm_plc_physical_layer_counters)
    ∷ (82, prime_ofdm_plc_mac_setup)
    ∷ (83, prime_ofdm_plc_mac_functional_parameters)
    ∷ (84, prime_ofdm_plc_mac_counters)
    ∷ (85, prime_ofdm_plc_mac_network_administration_data)
    ∷ (86, prime_ofdm_plc_mac_application_identification)
    ∷ (90, g3_plc_mac_layer_counters)
    ∷ (91, g3_plc_mac_setup)
    ∷ (92, g3_plc_6lowpan_adaptation_layer_setup)
    ∷ (140, hs_plc_iec_12139_1_mac_setup)
    ∷ (141, hs_plc_iec_12139_1_cpas_setup)
    ∷ (142, hs_plc_iec_12139_1_ip_ssas_setup)
    ∷ (143, hs_plc_iec_12139_1_hdlc_ssas_setup)
    ∷ (101, zigbee_sas_startup)
    ∷ (102, zigbee_sas_join)
    ∷ (103, zigbee_sas_aps_fragmentation)
    ∷ (104, zigbee_network_control)
    ∷ (105, zigbee_tunnel_setup)
    ∷ (126, schc_lpwan)
    ∷ (127, schc_lpwan_diagnostics)
    ∷ (128, lorawan_setup)
    ∷ (129, lorawan_diagnostics)
    ∷ (95, wisun_setup)
    ∷ (96, wisum_diagnostics)
    ∷ (97, rpl_diagnostics)
    ∷ (98, mpl_diagnostics)
    ∷ (130, iec_14908_identification)
    ∷ (131, iec_14908_protocol_setup)
    ∷ (132, iec_14908_protocol_status)
    ∷ (133, iec_14908_diagnostics)
    ∷ []

-- `CosemInterface(n)`
unfoldable pub cosem_interface : ℕ → Result CosemInterface
cosem_interface n = member_of cosem_interface_members n

pub cosem_interface_lem : (k : CosemInterface) → cosem_interface (cosem_interface_value k) ≡ ok k
unfolding cosem_interface cosem_interface_value
cosem_interface_lem data_object = refl
cosem_interface_lem _ = refl

pub cosem_interface_bound : (k : CosemInterface) → cosem_interface_value k < 256
unfolding cosem_interface_value
cosem_interface_bound data_object = omega arith
cosem_interface_bound _ = omega arith
